-- ===== src/Application/Started.antt =====
-- When application-management-service starts, and when and how its `main` exits.
use psr_pl.Dynamo.{Dynamo}
use psr_pl.Application.Model.{Application}
