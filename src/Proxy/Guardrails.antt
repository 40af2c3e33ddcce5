-- ===== src/Proxy/Guardrails.antt =====
-- src/routerbot/proxy/guardrails/manager.py, with the results and the base class of
-- proxy/guardrails/base.py. A guardrail is a record of its checks; a check that raises is `none`. The
-- context of a request, the details of a result and the values of a message that are no texts are of
-- types left open; `parse_list` stands for json.loads where it yields a list, of messages.
pub mod Modification
pub mod Ordering
pub mod Pipeline
pub mod Verdicts
mod Examples
use routerbot.Base.{
  ℕ, ◌≡◌, String, Option, none, some, Bool, true, false, not, ◌&&◌, ◌||◌, List, [], ◌∷◌, ◌++◌, map,
  ℤ, ltb_ℤ, ltb, length, keep, if◌then◌else◌, contains, Dict, lookup, insert, string_eq, ◌==◌,
}
use mathlib.Core.List.{reverse}

pub data GuardrailAction : Type 0 where
  allow block modify : GuardrailAction

pub record GuardrailResult (D : Type 0) : Type 0 where
  pub action : GuardrailAction
  pub modified_content : Option String
  pub reason : Option String
  pub guardrail_name : String
  pub details : Option D

pub data Value (X : Type 0) : Type 0 where
  text : String → Value X
  other : X → Value X

abbrev pub Message : Type 0 → Type 0
Message X = Dict String (Value X)

-- BaseGuardrail: `C` is the context, `D` the details, `X` the values that are no texts.
pub record BaseGuardrail (C D X : Type 0) : Type 0 where
  pub name : String
  pub enabled : Bool
  pub priority : ℤ
  pub check_request : List (Message X) → C → Option (GuardrailResult D)
  pub check_response : String → C → Option (GuardrailResult D)

-- GuardrailPipelineResult
pub record PipelineResult (D X : Type 0) : Type 0 where
  pub action : GuardrailAction
  pub modified_messages : Option (List (Message X))
  pub blocking_result : Option (GuardrailResult D)
  pub results : List (GuardrailResult D)

-- msg.get("role") == "user"
abbrev is_user_role : {X : Type 0} → Option (Value X) → Bool
is_user_role none = false
is_user_role (some (text s)) = s == "user"
is_user_role (some (other x)) = false

unfoldable pub is_user : {X : Type 0} → Message X → Bool
is_user msg = is_user_role (lookup "role" msg)

unfoldable pub with_content : {X : Type 0} → String → Message X → Message X
with_content content msg = insert "content" (text content) msg

module _ {X : Type 0} where
  -- The loop over the reversed messages; `replaced` is the code's flag.
  unfoldable pub replace_loop :
      String → Bool → List (Message X) → List (Message X) → List (Message X) × Bool
  replace_loop content replaced updated [] = (updated, replaced)
  replace_loop content replaced updated (msg ∷ msgs) =
      let here = not replaced && is_user msg in
      replace_loop content (replaced || here)
        (updated ++ (if here then with_content content msg else msg) ∷ []) msgs

  abbrev replace_last_user : String → List (Message X) → List (Message X)
  replace_last_user content messages =
      let (updated, replaced) = replace_loop content false [] (reverse messages) in
      if replaced then reverse updated else messages

  abbrev or_replace : String → List (Message X) → Option (List (Message X)) → List (Message X)
  or_replace content messages none = replace_last_user content messages
  or_replace content messages (some parsed) = parsed

  -- _apply_modification
  unfoldable pub apply_modification :
      (String → Option (List (Message X))) → List (Message X) → String → List (Message X)
  unfolding replace_loop
  apply_modification parse_list messages modified_content =
      or_replace modified_content messages (parse_list modified_content)

-- The result of a check, named; of a check that raised.
abbrev pub named_result : {D : Type 0} → String → Option (GuardrailResult D) → GuardrailResult D
named_result name (some r) = record r { guardrail_name = name }
named_result name none = record {
  action = allow;
  modified_content = none;
  reason = some "Guardrail error (treated as allow)";
  guardrail_name = name;
  details = none;
}

-- The content that follows a result, and whether it was modified.
abbrev pub modification : GuardrailAction → Option String → Option String
modification modify content = content
modification allow content = none
modification block content = none

abbrev pub is_block : GuardrailAction → Bool
is_block block = true
is_block allow = false
is_block modify = false

abbrev pub next_content : {A : Type 0} → (A → String → A) → A → Option String → A
next_content apply content none = content
next_content apply content (some m) = apply content m

abbrev pub or_modified : Bool → Option String → Bool
or_modified had none = had
or_modified had (some m) = true

-- self._guardrails
abbrev pub Guardrails : Type 0 → Type 0 → Type 0 → Type 0
Guardrails C D X = List (BaseGuardrail C D X)

-- What is asked of a manager's list.
pub data Change (C D X : Type 0) : Type 0 where
  added : BaseGuardrail C D X → Change C D X
  dropped : String → Change C D X

module _ {C D X : Type 0} where
  -- One step of a stable sort: before the first that is not smaller.
  unfoldable pub insert_sorted : BaseGuardrail C D X → Guardrails C D X → Guardrails C D X
  insert_sorted g [] = g ∷ []
  insert_sorted g (h ∷ hs) =
      if ltb_ℤ h.priority g.priority then h ∷ insert_sorted g hs else g ∷ h ∷ hs

  -- list.sort(key=lambda g: g.priority)
  unfoldable pub sort_by_priority : Guardrails C D X → Guardrails C D X
  unfolding insert_sorted
  sort_by_priority [] = []
  sort_by_priority (g ∷ gs) = insert_sorted g (sort_by_priority gs)

  unfoldable pub register : BaseGuardrail C D X → Guardrails C D X → Guardrails C D X
  unfolding sort_by_priority
  register g gs = sort_by_priority (gs ++ g ∷ [])

  unfoldable pub unregister : String → Guardrails C D X → Guardrails C D X × Bool
  unregister name gs =
      let rest = keep (λ g. not (g.name == name)) gs in (rest, ltb (length rest) (length gs))

  unfoldable pub change : Guardrails C D X → Change C D X → Guardrails C D X
  unfolding register unregister
  change gs (added g) = register g gs
  change gs (dropped name) = (unregister name gs).0

  unfoldable pub registered : Guardrails C D X → List String
  registered gs = map (λ g. g.name) gs

  -- A guardrail that is skipped is disabled, or named in `disabled`.
  abbrev pub runs : List String → BaseGuardrail C D X → Bool
  runs disabled g = g.enabled && not (contains g.name disabled)

  -- The body of run_request_guardrails and of run_response_guardrails, by what they check and how
  -- they go on from a modification; `finish` is what they return at the end.
  unfoldable pub pipeline :
      {A : Type 0}
      → (BaseGuardrail C D X → A → Option (GuardrailResult D))
      → (A → String → A)
      → (A → List (Message X))
      → List String
      → Guardrails C D X
      → A
      → Bool
      → List (GuardrailResult D)
      → PipelineResult D X
  pipeline check apply finish disabled [] content had results = record {
    action = (if had then modify else allow);
    modified_messages = some (finish content);
    blocking_result = none;
    results = results;
  }
  pipeline check apply finish disabled (g ∷ gs) content had results =
      let result = named_result g.name (check g content) in
      let change = modification result.action result.modified_content in
      let skipped = pipeline check apply finish disabled gs content had results in
      let passed =
        pipeline check apply finish disabled gs (next_content apply content change)
          (or_modified had change) (results ++ result ∷ []) in
      if runs disabled g
      then if is_block result.action
        then record {
          action = block;
          modified_messages = none;
          blocking_result = some result;
          results = results ++ result ∷ [];
        }
        else passed
      else skipped

  unfoldable pub run_request_guardrails :
      (String → Option (List (Message X)))
      → Guardrails C D X
      → List (Message X)
      → C
      → List String
      → PipelineResult D X
  unfolding pipeline apply_modification
  run_request_guardrails parse_list gs messages context disabled =
      pipeline (λ g content. g.check_request content context) (apply_modification parse_list)
        (λ content. content) disabled gs messages false []

  unfoldable pub run_response_guardrails :
      Guardrails C D X → String → C → List String → PipelineResult D X
  unfolding pipeline
  run_response_guardrails gs response context disabled =
      pipeline (λ g content. g.check_response content context) (λ content m. m)
        (λ content. (("role", text "assistant") ∷ ("content", text content) ∷ []) ∷ []) disabled gs
        response false []
