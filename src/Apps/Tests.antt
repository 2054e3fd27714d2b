-- ===== src/Apps/Tests.antt =====
-- The registry and the negotiation about closing with concrete applications.
use retrodesk.Prelude.{◌≡◌, some, true, false, List, [], ◌∷◌}
use retrodesk.Apps.Registry.{Descriptor, create, register, Registered, register-Registered}
use retrodesk.Apps.Close.{
  allowed, idle, represents, Call, requests, resolves, perform_all, phase_after,
  perform_all-represents,
}

abbrev notepad : Descriptor
notepad = record { key = 1; app_id = some (0x6e ∷ 0x70 ∷ []) }

register-Registered_example :
    Registered 1 (some (0x6e ∷ 0x70 ∷ [])) create (register true notepad create)
register-Registered_example = register-Registered true notepad create

abbrev calls : List Call
calls = requests (some false) ∷ resolves allowed ∷ []

perform_all-represents_example :
    perform_all calls (represents idle) ≡ represents (phase_after calls idle)
perform_all-represents_example = perform_all-represents calls idle
