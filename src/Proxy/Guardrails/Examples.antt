-- ===== src/Proxy/Guardrails/Examples.antt =====
-- The theorems on guardrails, at one that masks the last user message and one that blocks.
use routerbot.Base.{
  ℕ, ◌≡◌, refl, String, Option, none, some, true, false, List, [], ◌∷◌, pos, ◌⊎◌, lookup, insert,
  string_eq,
}
use routerbot.Proxy.Guardrails.{
  GuardrailAction, block, modify, GuardrailResult, text, Message, BaseGuardrail, is_user,
  with_content, apply_modification, run_request_guardrails,
}
use routerbot.Proxy.Guardrails.Pipeline.{Passed, Blocked, run_request_guardrails_lem}

abbrev Note : Type 0
Note = Message ℕ

abbrev result : GuardrailAction → Option String → GuardrailResult ℕ
result action content = record {
  action = action;
  modified_content = content;
  reason = none;
  guardrail_name = "";
  details = none;
}

abbrev guardrail : String → ℕ → GuardrailResult ℕ → BaseGuardrail ℕ ℕ ℕ
guardrail name priority r = record {
  name = name;
  enabled = true;
  priority = pos priority;
  check_request = λ messages context. some r;
  check_response = λ response context. some r;
}

abbrev mask : BaseGuardrail ℕ ℕ ℕ
mask = guardrail "mask" 10 (result modify (some "***"))

abbrev wall : BaseGuardrail ℕ ℕ ℕ
wall = guardrail "wall" 20 (result block none)

abbrev note : String → String → Note
note role content = ("role", text role) ∷ ("content", text content) ∷ []

abbrev unparsed : String → Option (List Note)
unparsed s = none

masked_then_blocked :
    (run_request_guardrails unparsed (mask ∷ wall ∷ []) (note "user" "secret" ∷ []) 0 []).action
    ≡ block
unfolding run_request_guardrails is_user with_content lookup insert
masked_then_blocked = refl

masked :
    (run_request_guardrails unparsed
      (mask ∷ wall ∷ [])
      (note "user" "secret" ∷ [])
      0
      ("wall" ∷ [])).modified_messages
    ≡ some (note "user" "***" ∷ [])
unfolding run_request_guardrails is_user with_content lookup insert
masked = refl

run_request_guardrails_lem_example :
    Passed
      (λ g content. g.check_request content 0)
      (apply_modification unparsed)
      (λ content. content)
      []
      (mask ∷ wall ∷ [])
      (note "user" "secret" ∷ [])
      false
      []
      (run_request_guardrails unparsed (mask ∷ wall ∷ []) (note "user" "secret" ∷ []) 0 [])
    ⊎ Blocked
        (λ g content. g.check_request content 0)
        (apply_modification unparsed)
        (λ content. content)
        []
        (mask ∷ wall ∷ [])
        (note "user" "secret" ∷ [])
        []
        (run_request_guardrails unparsed (mask ∷ wall ∷ []) (note "user" "secret" ∷ []) 0 [])
run_request_guardrails_lem_example =
    run_request_guardrails_lem (mask ∷ wall ∷ []) 0 [] unparsed (note "user" "secret" ∷ [])

user-note : is_user (note "user" "secret") ≡ true
unfolding is_user lookup
user-note = refl

other-note : is_user (note "assistant" "hello") ≡ false
unfolding is_user lookup
other-note = refl
