-- ===== src/Proxy/Guardrails/Verdicts.antt =====
-- What a single guardrail's part in a run is: whether it is asked, what its check counts as, and what
-- the next one sees.
use routerbot.Base.{
  string_eq, ◌≡◌, refl, ap, String, Option, none, some, Bool, true, false, ◌||◌, List, arith, ◌⊎◌,
  inl, inr, Bool-cases, In, contains, contains-In, some_inj, ◌≢◌,
}
use routerbot.Proxy.Guardrails.{
  allow, block, modify, GuardrailAction, GuardrailResult, BaseGuardrail, runs, named_result,
  modification, is_block, next_content, or_modified,
}

-- A result that changes the content.
abbrev pub is_change : GuardrailAction → Option String → Bool
is_change modify (some m) = true
is_change modify none = false
is_change allow content = false
is_change block content = false

abbrev pub changes : {D : Type 0} → GuardrailResult D → Bool
changes r = is_change r.action r.modified_content

-- A guardrail that is asked: it is enabled, and not named in `disabled`.
abbrev pub TakesPart : {C D X : Type 0} → List String → BaseGuardrail C D X → Type 0
TakesPart disabled g = (g.enabled ≡ true) × ¬ In g.name disabled

abbrev pub LeftOut : {C D X : Type 0} → List String → BaseGuardrail C D X → Type 0
LeftOut disabled g = (g.enabled ≡ false) ⊎ In g.name disabled

-- What counts as the result of a check: the one that it gave, under the guardrail's name, and for a
-- check that raised one that allows the content as it is.
pub record IsResult {D : Type 0} (name : String) (o : Option (GuardrailResult D))
    (r : GuardrailResult D) : Type 0 where
  pub named : r.guardrail_name ≡ name
  pub given :
      (g : GuardrailResult D)
      → o ≡ some g
      → (r.action ≡ g.action)
        × (r.modified_content ≡ g.modified_content)
        × (r.reason ≡ g.reason)
        × (r.details ≡ g.details)
  pub raised : o ≡ none → (r.action ≡ allow) × (r.modified_content ≡ none)

-- What the next guardrail sees after a result: the content with the modification, if there is one.
pub record IsNext {A D : Type 0} (apply : A → String → A) (content : A) (r : GuardrailResult D)
    (next : A) : Type 0 where
  pub changed :
      (m : String) → r.action ≡ modify → r.modified_content ≡ some m → next ≡ apply content m
  pub kept : changes r ≡ false → next ≡ content

pub runs-TakesPart :
    {C D X : Type 0} (disabled : List String) (g : BaseGuardrail C D X)
    → runs disabled g ≡ true
    → TakesPart disabled g
runs-TakesPart disabled g t = (
  ground arith,
  λ i. let c : contains g.name disabled ≡ true = (contains-In g.name disabled).1 i in ground arith,
)

pub runs-LeftOut :
    {C D X : Type 0} (disabled : List String) (g : BaseGuardrail C D X)
    → runs disabled g ≡ false
    → LeftOut disabled g
runs-LeftOut disabled g f = elim (Bool-cases g.enabled) [
  | inl t ↦
      let c : contains g.name disabled ≡ true = ground arith in
      inr ((contains-In g.name disabled).0 c)
  | inr n ↦ inl n
]

pub named_result-IsResult :
    {D : Type 0} (name : String) (o : Option (GuardrailResult D))
    → IsResult name o (named_result name o)
named_result-IsResult name none = record {
  named = refl;
  given = λ g e. cc;
  raised = λ e. (refl, refl);
}
named_result-IsResult {D} name (some r) = record {
  named = refl;
  given = λ g e.
      let s : r ≡ g = some_inj e in
      (
        ap (λ (x : GuardrailResult D). x.action) s,
        ap (λ (x : GuardrailResult D). x.modified_content) s,
        ap (λ (x : GuardrailResult D). x.reason) s,
        ap (λ (x : GuardrailResult D). x.details) s,
      );
  raised = λ e. cc;
}

pub next_by :
    {A : Type 0} (apply : A → String → A) (content : A) (action : GuardrailAction)
    (modified : Option String)
    → ((m : String)
        → action ≡ modify
        → modified ≡ some m
        → next_content apply content (modification action modified) ≡ apply content m)
      × (is_change action modified ≡ false
          → next_content apply content (modification action modified) ≡ content)
next_by apply content allow o = ((λ m e k. cc), λ _. refl)
next_by apply content block o = ((λ m e k. cc), λ _. refl)
next_by apply content modify none = ((λ m e k. cc), λ _. refl)
next_by apply content modify (some n) = ((λ m e k. ap (apply content) (some_inj k)), λ f. cc)

pub or_modified-changes :
    (had : Bool) (action : GuardrailAction) (modified : Option String)
    → or_modified had (modification action modified) ≡ (had || is_change action modified)
or_modified-changes had allow o = ground arith
or_modified-changes had block o = ground arith
or_modified-changes had modify none = ground arith
or_modified-changes had modify (some m) = ground arith

pub is_block_lem :
    (action : GuardrailAction)
    → (is_block action ≡ true → action ≡ block) × (is_block action ≡ false → action ≢ block)
is_block_lem allow = ((λ t. cc), λ _ e. cc)
is_block_lem modify = ((λ t. cc), λ _ e. cc)
is_block_lem block = ((λ _. refl), λ f. cc)
