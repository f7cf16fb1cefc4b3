-- ===== src/Lib.antt =====
-- The loan platform's services, their workflow, and what holds of them.
--
-- The program is five Go services and a Step Functions state machine. An applicant submits an
-- application to application-management-service, which stores it and starts the state machine. The
-- state machine calls Lambda functions and a Fargate task of pricing-orchestration-service: a soft
-- pull, pricing, a pause until the applicant selects an offer and consents, a hard pull, a decision,
-- and the update of the application's status. The pause is ended by the offer-selection API of the
-- same service. workflow-status-service tells the applicant where the application stands;
-- offer-acceptance-service takes the e-signature and document-service the documents, and both then
-- advance the application's status by a call of application-management-service.
--
-- How code is modelled. A Go call that may fail is an `Exec S A` (Go/Call.antt): a function from the
-- state of the systems that it reaches to a result and the new state, so what was changed before a
-- failure stays changed. An error is a value that keeps its `%w` chain for `errors.Is`
-- (Go/Fault.antt). `int64` and `int` wrap at 64 bits (Go/Int64.antt). DynamoDB, `net/http`,
-- `encoding/json`, Step Functions, the clock, UUIDs and random tokens are parameters or arguments.
-- What is asked of DynamoDB and of `attributevalue` is written down as laws (Dynamo/Client.antt), and
-- a table in memory meets them (Dynamo/Memory.antt). Each service relies on a contract of its
-- repository (`IsRepository`, `IsSessionStore`), which the repository over DynamoDB fills.
--
-- Which file models what:
--   Application: application-management-service/internal/application. Model (model.go), Validator
--     (validator.go), Suffix (`strings.HasSuffix`), Repository (repository.go), Sessions and Issued
--     (session.go), Workflow (workflow.go), OfferLog and Granted (offerclient.go), Service
--     (service.go), Handler (handler.go); proofs in Submission, Failures, Login, Lifecycle and
--     Replies, and of two interleaved submissions in Interleaved.
--   OfferLogMock: application-management-service/cmd/offerlog-mock/main.go, its map of pointers as a
--     heap (Store, Paired), its routes and server (Server).
--   Pricing: pricing-orchestration-service/internal/pricing. Model, Options and Terms and Capacity
--     (pricing.go), Decision (decision.go), Bureau (creditbureau.go).
--   OfferSelection: pricing-orchestration-service/internal/offerselection. Model, Repository, Service,
--     Resumer (workflowcallback.go), Sessions (sessionvalidator.go), Handler; proofs in Confirm,
--     Interleaved, Find and Access.
--   Workflow: pricing-orchestration-service/cmd (Steps, Effects) and
--     pricing-orchestration-service/statemachine/definition.asl.json as a step relation (Machine);
--     proofs in Invariant, Outcome, Counted, Progress and Names.
--   Documents: document-service/internal/document, in Abstract as a set of documents for each
--     application, in Unordered as a quotient of its lists, and after a failed update in Stranded. Acceptance:
--     offer-acceptance-service/internal/offeracceptance. Status:
--     workflow-status-service/internal/workflowstatus.
--   Server and Main in each of these five: `Register` of the service's handler.go and its
--     cmd/server/main.go, that is the settings, the routes, the clients and the server that the
--     handlers stand in. Proofs on application-management-service's in Configured, Started, Serving,
--     Reading and Running; on the headers of each in Framed.
--   Web: what the servers share. Paths, Mux (`http.ServeMux`), Exchange (`http.Handler`, `writeJSON`),
--     Middleware (requestid.go, `withCORS`), Environments (`requireEnv`, `envOrDefault`); proofs in
--     Segments, Routing, Overlap and Framed.
--   Platform: the services together. Network is an `HttpClient` behind which a server answers, so
--     that the request which one service sends is routed and handled by another; Calls, Lookups and
--     Presented say what each call between two services does there, and Lifecycle, Admission, Report,
--     Journey and Decided what follows for an application. In Invitations, Spent and Raced the mock
--     answers for OfferLog.
--   Http: the outgoing requests and the replies, which the services write alike. Sets: `containsAll`,
--     which two services share. Base: names, tests and lemmas for all. Every part has its runs on
--     concrete data in a module Tests.
--
-- Bounds. No definition uses fuel: the loops of the code run over lists, and are recursions on them.
-- The amounts of Pricing/Capacity are taken up to 10 ^ 15 cents and the term up to 1000 months, where
-- no step of the 64-bit arithmetic wraps; Pricing/Terms takes terms up to 2 ^ 62. The state machine
-- ends a failing execution, as its definition has no Retry and no Catch.
--
-- Not modelled: listening, signals and shutdown (cmd/server), and the AWS clients, which are
-- parameters; logging; the texts of error messages beyond their parts; the body of a redirect; what
-- `url.PathUnescape` does to percent escapes, and the splitting of a URL (the paths between
-- services are stated for ids without '/', '%', '?' and '#'); `float64` arithmetic, which is a
-- parameter of the handlers (rates of pricing are tenths of a percent); concurrent requests to one
-- service, whose calls are taken one after the other, but for two confirmations
-- (OfferSelection/Interleaved), two submissions of documents (Documents/Interleaved) and two of
-- applications (Application/Interleaved) that both read before either writes; the user interfaces
-- and the deployment.
pub mod Base
pub mod Go
pub mod Dynamo
pub mod Sets
pub mod Application
pub mod Pricing
pub mod Http
pub mod OfferLogMock
pub mod Platform
pub mod OfferSelection
pub mod Documents
pub mod Acceptance
pub mod Status
pub mod Web
pub mod Workflow
