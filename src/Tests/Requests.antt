-- ===== src/Tests/Requests.antt =====
-- backend/app/services/agents/router.py with the built-in agents.
use gummy_os.Common.{Text, codes, [], ◌∷◌, none, some, ◌≡◌, refl}
use gummy_os.Agents.Manifests.{builtin_manifests}
use gummy_os.Agents.Registry.{has_agent}
use gummy_os.Routing.{specialist_agent_keys}
use gummy_os.Routing.Keywords.{best_of}
use gummy_os.Routing.Plans.{route}
use gummy_os.Routing.Best.{IsOutcome, best_of-first_max}
use gummy_os.Routing.Routed.{IsPlan, route-IsPlan}

abbrev request : Text
request = codes "Research AI companies, and then build a study roadmap"

route-IsPlan_example : IsPlan builtin_manifests (route request builtin_manifests none none none)
route-IsPlan_example =
    route-IsPlan builtin_manifests (unfold has_agent in refl) (unfold has_agent in refl) request
      none none none

two_tasks :
    (route request builtin_manifests none none none).steps
    ≡ record { agent_key = "research"; intent = some (codes "Research AI companies") }
      ∷ record { agent_key = "engineer"; intent = some (codes "build a study roadmap") }
      ∷ []
unfolding route
two_tasks = refl

best_of-first_max_example :
    IsOutcome builtin_manifests
      (codes "build a study roadmap")
      specialist_agent_keys
      (best_of builtin_manifests (codes "build a study roadmap") none specialist_agent_keys)
best_of-first_max_example =
    best_of-first_max builtin_manifests (codes "build a study roadmap") specialist_agent_keys
