-- ===== src/Apps/Close.antt =====
-- The negotiation about closing of app/app_runtime.c.
use retrodesk.Prelude.{
  ◌≡◌, refl, Option, none, some, Bool, true, false, List, [], ◌∷◌, if◌then◌else◌,
}

pub data CloseResult : Type 0 where
  allowed deferred cancelled : CloseResult

-- The fields of `RetroAppInstance` that the negotiation uses. `can_close` is set or NULL.
pub record Instance : Type 0 where
  pub close_requested : Bool
  pub close_pending : Bool
  pub close_result : CloseResult

-- `app_request_close`; `answer` is what `can_close` returns, `none` where there is none to ask.
unfoldable pub request_close : Option Bool → Instance → Instance × CloseResult
request_close (some false) app =
    (record { close_requested = false; close_pending = true; close_result = deferred }, deferred)
request_close (some true) app =
    (record { close_requested = true; close_pending = false; close_result = allowed }, allowed)
request_close none app =
    (record { close_requested = true; close_pending = false; close_result = allowed }, allowed)

unfoldable pub is_allowed : CloseResult → Bool
is_allowed allowed = true
is_allowed deferred = false
is_allowed cancelled = false

unfoldable pub resolve_close : CloseResult → Instance → Instance
unfolding is_allowed
resolve_close deferred app = app
resolve_close allowed app =
    if app.close_pending
    then record { close_requested = true; close_pending = false; close_result = allowed }
    else app
resolve_close cancelled app =
    if app.close_pending
    then record { close_requested = false; close_pending = false; close_result = cancelled }
    else app

unfoldable pub reset_close_request : Instance → Instance
reset_close_request app = record {
  close_requested = false;
  close_pending = false;
  close_result = allowed;
}

-- The negotiation as one state machine: nothing asked, the user decides, the answer.
pub data Phase : Type 0 where
  idle waiting granted refused : Phase

unfoldable pub represents : Phase → Instance
represents idle = record { close_requested = false; close_pending = false; close_result = allowed }
represents waiting = record {
  close_requested = false;
  close_pending = true;
  close_result = deferred;
}
represents granted = record {
  close_requested = true;
  close_pending = false;
  close_result = allowed;
}
represents refused = record {
  close_requested = false;
  close_pending = false;
  close_result = cancelled;
}

pub data Call : Type 0 where
  requests : Option Bool → Call
  resolves : CloseResult → Call
  resets : Call

unfoldable pub perform : Call → Instance → Instance
unfolding request_close resolve_close reset_close_request
perform (requests answer) app = (request_close answer app).0
perform (resolves result) app = resolve_close result app
perform resets app = reset_close_request app

-- The steps of the machine. A request starts anew in any phase; a decision counts only while one is
-- awaited, and a deferral is none.
unfoldable pub next : Call → Phase → Phase
next (requests none) p = granted
next (requests (some true)) p = granted
next (requests (some false)) p = waiting
next (resolves allowed) waiting = granted
next (resolves cancelled) waiting = refused
next (resolves deferred) waiting = waiting
next (resolves r) idle = idle
next (resolves r) granted = granted
next (resolves r) refused = refused
next resets p = idle

perform-next : (c : Call) (p : Phase) → perform c (represents p) ≡ represents (next c p)
unfolding perform represents next request_close resolve_close reset_close_request
perform-next (requests none) p = refl
perform-next (requests (some true)) p = refl
perform-next (requests (some false)) p = refl
perform-next (resolves allowed) waiting = refl
perform-next (resolves cancelled) waiting = refl
perform-next (resolves deferred) waiting = refl
perform-next (resolves allowed) idle = refl
perform-next (resolves cancelled) idle = refl
perform-next (resolves deferred) idle = refl
perform-next (resolves allowed) granted = refl
perform-next (resolves cancelled) granted = refl
perform-next (resolves deferred) granted = refl
perform-next (resolves allowed) refused = refl
perform-next (resolves cancelled) refused = refl
perform-next (resolves deferred) refused = refl
perform-next resets p = refl

unfoldable pub perform_all : List Call → Instance → Instance
unfolding perform
perform_all [] app = app
perform_all (c ∷ cs) app = perform_all cs (perform c app)

unfoldable pub phase_after : List Call → Phase → Phase
unfolding next
phase_after [] p = p
phase_after (c ∷ cs) p = phase_after cs (next c p)

-- The calls about closing, in any order, take an instance through the four phases of the
-- negotiation: its flags and its result are always those of the phase that it is in.
pub perform_all-represents :
    (cs : List Call) (p : Phase) → perform_all cs (represents p) ≡ represents (phase_after cs p)
unfolding perform_all phase_after
perform_all-represents [] p = refl
perform_all-represents (c ∷ cs) p = rw (perform-next c p) (perform_all-represents cs (next c p))
