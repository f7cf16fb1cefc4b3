-- ===== src/Status/Handler.antt =====
-- workflow-status-service/internal/workflowstatus/handler.go. A request is its Authorization header
-- and its path id.
use psr_pl.Base.{String, ◌==◌, if◌then◌else◌}
use psr_pl.Go.{is, Result, ok, err, text, unauthorized}
use psr_pl.Http.{Reply, write_json, write_error, bearer_token}
use psr_pl.Status.Model.{WorkflowStatus}
use psr_pl.Status.Reader.{ExecutionReader}
use psr_pl.Status.Client.{ApplicationClient}
use psr_pl.Status.Service.{State, get_status}

abbrev status_reply : Result WorkflowStatus → Reply WorkflowStatus
status_reply (ok s) = write_json 200 s
status_reply (err e) = if is e unauthorized then write_error 401 e else write_error 500 e

unfoldable pub status :
    {N E : Type 0}
    → ApplicationClient N
    → ExecutionReader E
    → String
    → String
    → State N E
    → Reply WorkflowStatus × State N E
status applications executions auth id s =
    let token = bearer_token auth in
    if token == ""
    then (write_error 401 (text "missing session token"), s)
    else let (r, t) = get_status applications executions token id s in (status_reply r, t)
