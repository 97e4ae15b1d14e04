-- ===== src/Tests/Endpoints.antt =====
-- Workers, endpoints and the guards of stream and tagged operations, at concrete inputs.
use ucx_rs.Base.{[]}
use ucx_rs.Worker.{poll, max_rounds, wait_request}
use ucx_rs.Worker
use ucx_rs.Worker.Polling.{owning, Polls, poll-Polls}
use ucx_rs.Worker.Teardown.{Torn, drop-Torn}
use ucx_rs.Ep.{close}
use ucx_rs.Ep.Closing.{Closes, close_call, close-Closes}
use ucx_rs.Tag.{complete}
use ucx_rs.Tag.Completion.{Completes, complete-Completes, free-complete}
use ucx_rs.Tag.Completion
use ucx_rs.Tests.{ucx, worker, ep, started}

poll-Polls_example : Polls ucx worker 4096 3 [] (poll 3 (owning 4096) worker ucx [])
poll-Polls_example = poll-Polls ucx worker 4096 3 []

drop-Torn_example : Torn ucx worker started (Worker.drop worker ucx started).1
drop-Torn_example = drop-Torn worker ucx started

close-Closes_example :
    Closes ucx worker 4096 (close_call ep 1 started) (close ep worker 1 ucx started)
close-Closes_example = close-Closes ep worker 1 ucx started

complete-Completes_example :
    Completes ucx worker 4096 1000000 [] (complete (Completion.holding worker 4096) ucx [])
complete-Completes_example = complete-Completes worker 4096 ucx []
