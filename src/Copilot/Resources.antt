-- ===== src/Copilot/Resources.antt =====
-- The clients and sessions of the SDK that `CopilotAgentSession` of src/ttasks/copilot.py holds.
use ttasks.Common.{
  ℕ, ◌≡◌, refl, ap, ◌∙◌, inl, inr, Bool, true, false, Option, none, some, List, [], ◌∷◌, arith,
  is_some, Option-cases, if◌then◌else◌,
}
use ttasks.Errors.{Exn, Result, ok, raise}
use ttasks.Copilot.{
  Sdk, Session, already_active, listed, leave_client, leave_session, open_async, close_async,
  start_loop_thread, stop_loop_thread, aenter, aexit, enter, exit, after_aenter, after_enter,
  after_exit, unsubscribe_events, dispatch_event,
}

-- What has been entered and not been left is what the session object holds: nothing, or a client
-- with its session, which is so exactly when the object is active.
pub record IsTidy (s : Session) : Type 0 where
  pub pair : s.session ≡ s.client
  pub clients : s.open_clients ≡ listed s.client
  pub sessions : s.open_sessions ≡ listed s.client
  pub flag : s.active ≡ is_some s.client

module _ (sdk : Sdk) where
  -- An action leaves nothing open.
  record IsClosed (s : Session) : Type 0 where
    no_client : s.client ≡ none
    no_session : s.session ≡ none
    no_clients : s.open_clients ≡ []
    no_sessions : s.open_sessions ≡ []
    inactive : s.active ≡ false

  IsClosed-IsTidy : (s : Session) → IsClosed s → IsTidy s
  IsClosed-IsTidy s c = ground arith

  open_async-IsTidy : (s : Session) → IsClosed s → IsTidy (open_async sdk s).1
  unfolding open_async
  open_async-IsTidy s c = ground arith

  close_async-IsClosed : (s : Session) → IsTidy s → IsClosed (close_async sdk s).1
  unfolding close_async leave_session leave_client
  close_async-IsClosed s v = ground arith

  Tidy-IsClosed : (s : Session) → IsTidy s → s.active ≡ false → IsClosed s
  Tidy-IsClosed s v idle = elim (Option-cases s.client) [
    | inl e ↦ ground arith
    | inr (c, e) ↦ ground arith
  ]

  start-IsClosed : (s : Session) → IsClosed s → IsClosed (start_loop_thread s)
  unfolding start_loop_thread
  start-IsClosed s c = ground arith

  -- A call that a user of a session makes; the handlers of events raise what the call says.
  pub data Use : Type 0 where
    async_enter async_exit sync_enter sync_exit : Use
    unsubscribe : ℕ → Use
    event : (ℕ → Option Exn) → Use

  unfoldable pub use_session : Session → Use → Session
  use_session s async_enter = (aenter sdk s).1
  use_session s async_exit = (aexit sdk s).1
  use_session s sync_enter = (enter sdk s).1
  use_session s sync_exit = (exit sdk s).1
  use_session s (unsubscribe h) = unsubscribe_events s h
  use_session s (event handle) = dispatch_event handle s

  unfoldable pub use_all : Session → List Use → Session
  use_all s [] = s
  use_all s (u ∷ us) = use_all (use_session s u) us

  after_aenter-IsTidy : (o : Result (Unit {0}) × Session) → IsTidy o.1 → IsTidy (after_aenter o).1
  after_aenter-IsTidy (ok u, s) v = ground arith
  after_aenter-IsTidy (raise e, s) v = v

  after_enter-IsTidy : (o : Result (Unit {0}) × Session) → IsTidy o.1 → IsTidy (after_enter o).1
  unfolding stop_loop_thread
  after_enter-IsTidy (ok u, s) v = ground arith
  after_enter-IsTidy (raise e, s) v = ground arith

  after_exit-IsTidy : (o : Result (Unit {0}) × Session) → IsTidy o.1 → IsTidy (after_exit o).1
  unfolding stop_loop_thread
  after_exit-IsTidy (o, s) v = ground arith

  if-IsTidy :
      (b : Bool) (x y : Result (Unit {0}) × Session)
      → (b ≡ true → IsTidy x.1)
      → (b ≡ false → IsTidy y.1)
      → IsTidy (if b then x else y).1
  if-IsTidy true x y h k = h refl
  if-IsTidy false x y h k = k refl

  use_session-IsTidy : (s : Session) (u : Use) → IsTidy s → IsTidy (use_session s u)
  unfolding use_session aenter aexit enter exit unsubscribe_events dispatch_event
  use_session-IsTidy s async_enter v =
      if-IsTidy s.active (raise already_active, s) (after_aenter (open_async sdk s)) (λ busy. v)
        (λ idle. after_aenter-IsTidy _ (open_async-IsTidy s (Tidy-IsClosed s v idle)))
  use_session-IsTidy s async_exit v = IsClosed-IsTidy _ (close_async-IsClosed s v)
  use_session-IsTidy s sync_enter v =
      if-IsTidy s.active (raise already_active, s)
        (after_enter (open_async sdk (start_loop_thread s))) (λ busy. v)
        (λ idle.
          after_enter-IsTidy _
            (open_async-IsTidy (start_loop_thread s) (start-IsClosed s (Tidy-IsClosed s v idle))))
  use_session-IsTidy s sync_exit v =
      after_exit-IsTidy (if s.has_loop then close_async sdk s else (ok tt, s)) (
        if-IsTidy s.has_loop (close_async sdk s) (ok tt, s)
          (λ loop. IsClosed-IsTidy _ (close_async-IsClosed s v)) (λ no_loop. v))
  use_session-IsTidy s (unsubscribe h) v = ground arith
  use_session-IsTidy s (event handle) v = ground arith

  -- Whatever calls are made on a session, in any order, and whatever the SDK raises, no client and
  -- no session of the SDK is entered and then lost: what has not been left is what the object holds,
  -- and it holds nothing unless it is active.
  pub use_all-IsTidy : (s : Session) (us : List Use) → IsTidy s → IsTidy (use_all s us)
  unfolding use_all
  use_all-IsTidy s [] v = v
  use_all-IsTidy s (u ∷ us) v = use_all-IsTidy (use_session s u) us (use_session-IsTidy s u v)

  exit-eq-after_exit :
      (s : Session) → s.has_loop ≡ true → exit sdk s ≡ after_exit (close_async sdk s)
  unfolding exit
  exit-eq-after_exit s loop =
      ap (λ b. after_exit (if b then close_async sdk s else (ok tt, s))) loop

  close_async_raises :
      (s : Session) (c : ℕ)
      → s.session ≡ some c
      → s.client ≡ some c
      → (close_async sdk s).0 ≡ (elim (sdk.exit_session c) as (λ _. Result (Unit {0})) [
        | some e ↦ raise e
        | none ↦ elim (sdk.exit_client c) as (λ _. Result (Unit {0})) [
          | some e ↦ raise e
          | none ↦ ok tt
        ]
      ])
  unfolding close_async
  close_async_raises s c e f = ground arith

  -- The end of a `with` block leaves nothing open and the loop stopped, whatever the SDK raises. It
  -- raises what the session raises on leaving, and otherwise what the client raises.
  pub exit_lem :
      (s : Session) (c : ℕ)
      → IsTidy s
      → s.client ≡ some c
      → s.has_loop ≡ true
      → let o = exit sdk s in
        (o.1.open_clients ≡ [])
        × (o.1.open_sessions ≡ [])
        × (o.1.active ≡ false)
        × (o.1.sync_active ≡ false)
        × (o.1.has_loop ≡ false)
        × (o.0 ≡ (elim (sdk.exit_session c) as (λ _. Result (Unit {0})) [
          | some e ↦ raise e
          | none ↦ elim (sdk.exit_client c) as (λ _. Result (Unit {0})) [
            | some e ↦ raise e
            | none ↦ ok tt
          ]
        ]))
  unfolding stop_loop_thread
  exit_lem s c v held loop =
      let closed = close_async-IsClosed s v in
      rw (exit-eq-after_exit s loop) (
        closed.no_clients,
        closed.no_sessions,
        closed.inactive,
        refl,
        refl,
        close_async_raises s c (v.pair ∙ held) held,
      )
