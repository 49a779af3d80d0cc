-- ===== src/Tests/Cluster.antt =====
-- Two peers that say they are the same node, the second while that node is being joined.
use mattx.Base.{true, List, [], ◌∷◌, none}
use mattx.Cluster.{Event, init, run, accepted, heartbeat, identified, join, connected}
use mattx.Cluster.Links.{IsMapped}
use mattx.Cluster.Mapped.{run-IsMapped}

abbrev events : List Event
events =
    accepted 50
    ∷ accepted 51
    ∷ heartbeat 0 4
    ∷ heartbeat 1 4
    ∷ identified 0 4
    ∷ join 4 none
    ∷ identified 1 4
    ∷ connected 4 52 true
    ∷ []

run-IsMapped_example : IsMapped (run init events)
run-IsMapped_example = run-IsMapped events
