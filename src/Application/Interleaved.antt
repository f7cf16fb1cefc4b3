-- ===== src/Application/Interleaved.antt =====
-- Two submissions whose calls interleave: both ask OfferLog before either of them persists.
use psr_pl.Base.{Option, ◌≡◌, arith, inl, inr}
use psr_pl.Go.{Exec, pure, lift, ok, Result-cases, ◌>>=◌, ◌>>◌}
use psr_pl.Application.Model.{Offer, Application}
use psr_pl.Application.Repository.{Repository}
use psr_pl.Application.Sessions.{SessionStore}
use psr_pl.Application.Workflow.{WorkflowStarter}
use psr_pl.Application.OfferLog.{OfferLogAdapter}
use psr_pl.Application.Service.{
  State, SubmitRequest, Ambient, check_complete, revalidate, persist, submit,
}

-- Two computations of two phases each, whose first phases come first.
module _ {S A B : Type 0} (m n : Exec S A) (k l : A → Exec S B) where
  abbrev interleaved : Exec S (B × B)
  interleaved = do x ← m; y ← n; a ← k x; b ← l y; pure (a, b)

  interleaved_ok :
      (s : S) (a b : B)
      → (interleaved s).0 ≡ ok (a, b)
      → (x y : A) × (between later : S) × ((m s).0 ≡ ok x)
        × ((n (m s).1).0 ≡ ok y)
        × ((k x between).0 ≡ ok a)
        × ((l y later).0 ≡ ok b)
  interleaved_ok s a b h = elim (Result-cases (m s).0) [
    | inl (x, got) ↦ elim (Result-cases (n (m s).1).0) [
      | inl (y, got') ↦
          let between = (n (m s).1).1 in
          (x, y, between, (k x between).1, got, got', ground arith, ground arith)
      | inr (e, failed) ↦ absurd (ground arith)
    ]
    | inr (e, failed) ↦ absurd (ground arith)
  ]

module _ {D L W : Type 0} (repo : Repository D) (offers : OfferLogAdapter L)
    (sessions : SessionStore D) (workflow : WorkflowStarter W) where
  -- `Submit` up to the answer of OfferLog; `persist` is the rest of it.
  abbrev pub ask : SubmitRequest → Exec (State D L W) (SubmitRequest × Option Offer)
  ask req = do
    lift (check_complete repo offers sessions workflow req.applicant)
    revalidate repo offers sessions workflow req

  -- A submission is its two phases.
  submit_phases :
      (now : Ambient) (req : SubmitRequest) (s : State D L W)
      → submit repo offers sessions workflow now req s
        ≡ (ask req >>= persist repo offers sessions workflow now) s
  unfolding submit
  submit_phases now req s = ground arith

  unfoldable pub submit_two :
      Ambient
      → Ambient
      → SubmitRequest
      → SubmitRequest
      → Exec (State D L W) (Application × Application)
  submit_two now later req next = do
    r ← ask req
    r' ← ask next
    app ← persist repo offers sessions workflow now r
    app' ← persist repo offers sessions workflow later r'
    pure (app, app')

  persist_offer :
      (now : Ambient) (req : SubmitRequest) (snapshot : Option Offer) (s : State D L W)
      (app : Application)
      → (persist repo offers sessions workflow now (req, snapshot) s).0 ≡ ok app
      → app.offer ≡ snapshot
  persist_offer now req snapshot s app h = ground arith

  -- What the two applications carry is what OfferLog answered to the two questions.
  pub submit_two_offers :
      (now later : Ambient) (req next : SubmitRequest) (s : State D L W) (app second : Application)
      → (submit_two now later req next s).0 ≡ ok (app, second)
      → (kept kept' : SubmitRequest) × ((ask req s).0 ≡ ok (kept, app.offer))
        × ((ask next (ask req s).1).0 ≡ ok (kept', second.offer))
  unfolding submit_two
  submit_two_offers now later req next s app second h =
      let ((kept, snapshot), (kept', snapshot'), between, after, asked, asked', made, made') =
        interleaved_ok (ask req) (ask next) (persist repo offers sessions workflow now)
          (persist repo offers sessions workflow later) s app second h in
      let carried = persist_offer now kept snapshot between app made in
      let carried' = persist_offer later kept' snapshot' after second made' in
      (kept, kept', rw carried asked, rw carried' asked')
