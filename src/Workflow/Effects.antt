-- ===== src/Workflow/Effects.antt =====
-- The steps that call other systems: pricing-orchestration-service/cmd/present-offer-lambda,
-- update-status-lambda and pricing-fargate. An environment variable is an argument. Logging is left
-- out.
use Prim.Native.String.{◌++◌ as concat}
use psr_pl.Base.{String, Option, none, some, List, [], ◌∷◌, ◌||◌, ◌==◌, nat_eq, if◌then◌else◌}
use psr_pl.Go.{
  Error, Result, ok, err, text, status_code, Exec, pure, raise, lift, wrapping, ◌>>=◌, ◌>>◌,
}
use psr_pl.Http.{
  Request, HttpResponse, HttpClient, fields, presented, json_headers, status_url, status_request,
}
use psr_pl.Pricing.Model.{OfferOption, Decision, WorkflowState}
use psr_pl.Workflow.Steps.{pricing_calculation}

pub record PresentInput : Type 0 where
  pub task_token : String
  pub application_id : String
  pub priced_offers : List OfferOption
  pub request_id : String

abbrev present_url : String → String → String
present_url base_url application_id =
    concat base_url (concat "/internal/applications/" (concat application_id "/selected-offer"))

module _ {N : Type 0} (http : HttpClient N) (base_url : String) where
  abbrev pub present_request : PresentInput → String → Request
  present_request input body = record {
    method = "POST";
    url = present_url base_url input.application_id;
    headers = json_headers input.request_id;
    payload = body;
  }

  abbrev check_created : PresentInput → HttpResponse → Exec N String
  check_created input resp =
      if nat_eq resp.status 201
      then pure input.application_id
      else raise (status_code "pricing-orchestration-service rejected present-offer" resp.status)

  unfoldable pub present_offer : PresentInput → Exec N String
  present_offer input =
      if base_url == "" then raise (text "PRICING_ORCHESTRATION_BASE_URL is not configured") else do
        body ← wrapping "encoding present-offer request" (
            lift
              (http.encode (presented input.application_id input.task_token input.priced_offers)))
        wrapping "building present-offer request"
            (lift (http.new_request "POST" (present_url base_url input.application_id)))
        resp ←
            wrapping "calling pricing-orchestration-service"
              (http.send (present_request input body))
        check_created input resp

  abbrev check_updated : WorkflowState → HttpResponse → Exec N WorkflowState
  check_updated input resp =
      if nat_eq resp.status 200
      then pure input
      else raise (status_code "application-management-service rejected status update" resp.status)

  abbrev send_decision : WorkflowState → Option Decision → Exec N WorkflowState
  send_decision input none = raise (text "update-application-status requires a decision")
  send_decision input (some decision) =
      if base_url == ""
      then raise (text "APPLICATION_MANAGEMENT_BASE_URL is not configured")
      else do
        body ←
            wrapping "encoding status update"
              (lift (http.encode (fields (("status", decision.outcome) ∷ []))))
        wrapping "building status update request"
            (lift (http.new_request "PUT" (status_url base_url input.application_id)))
        resp ←
            wrapping "calling application-management-service"
              (http.send (status_request input.request_id base_url input.application_id body))
        check_updated input resp

  unfoldable pub update_status : WorkflowState → Exec N WorkflowState
  update_status input = send_decision input input.decision

-- The two calls of Step Functions that end a task, by its token.
pub record TaskClient (W : Type 0) : Type 0 where
  pub send_task_success : String → String → Exec W (Unit {0})
  pub send_task_failure : String → String → Error → Exec W (Unit {0})

-- `unmarshal` and `marshal` are the answers of `encoding/json`.
module _ {W : Type 0} (client : TaskClient W) (unmarshal : String → Result WorkflowState)
    (marshal : List OfferOption → Result String) where
  abbrev send_offers : String → Result String → Exec W (Unit {0})
  send_offers token (err e) = client.send_task_failure token "EncodingError" e
  send_offers token (ok output) =
      wrapping "sending task success" (client.send_task_success token output)

  abbrev price_state : String → WorkflowState → Result (List OfferOption) → Exec W (Unit {0})
  price_state token state (err e) = client.send_task_failure token "MissingSoftPull" e
  price_state token state (ok offers) = send_offers token (marshal offers)

  abbrev price_input : String → Result WorkflowState → Exec W (Unit {0})
  price_input token (err e) = client.send_task_failure token "InvalidInput" e
  price_input token (ok state) = price_state token state (pricing_calculation state)

  -- `run`; `config` is what loading the AWS configuration answers.
  unfoldable pub pricing_fargate : Result (Unit {0}) → String → String → Exec W (Unit {0})
  pricing_fargate config task_input task_token =
      if task_input == "" || task_token == ""
      then raise (text "TASK_INPUT and TASK_TOKEN must both be set")
      else wrapping "creating Step Functions client" (lift config)
        >> price_input task_token (unmarshal task_input)
