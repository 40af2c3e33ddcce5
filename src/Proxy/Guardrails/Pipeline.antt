-- ===== src/Proxy/Guardrails/Pipeline.antt =====
-- What a run of the guardrails comes to: the content that all of them passed, or the first block.
use routerbot.Base.{
  string_eq, ◌≡◌, refl, ap, String, Option, none, some, Bool, false, ◌||◌, List, [], ◌∷◌, ◌++◌,
  arith, any, if◌then◌else◌, ◌⊎◌, inl, inr, Bool-cases, append-nil, append_assoc, ◌≢◌,
}
use routerbot.Proxy.Guardrails.{
  allow, block, modify, GuardrailResult, Message, BaseGuardrail, Guardrails, PipelineResult, text,
  runs, named_result, modification, is_block, next_content, or_modified, pipeline,
  apply_modification, run_request_guardrails, run_response_guardrails,
}
use routerbot.Proxy.Guardrails.Verdicts.{
  changes, TakesPart, LeftOut, IsResult, IsNext, runs-TakesPart, runs-LeftOut,
  named_result-IsResult, next_by, or_modified-changes, is_block_lem,
}

module _ {C D X A : Type 0} (check : BaseGuardrail C D X → A → Option (GuardrailResult D))
    (apply : A → String → A) (disabled : List String) where
  -- The guardrails let the content through, which becomes another on the way, with these results.
  pub data Passes : Guardrails C D X → A → A → List (GuardrailResult D) → Type 0 where
    done : {content : A} → Passes [] content content []
    skip :
        {g : BaseGuardrail C D X} {gs : Guardrails C D X} {content last : A}
        {rs : List (GuardrailResult D)}
        → LeftOut disabled g
        → Passes gs content last rs
        → Passes (g ∷ gs) content last rs
    pass :
        {g : BaseGuardrail C D X} {gs : Guardrails C D X} {content last : A}
        {rs : List (GuardrailResult D)}
        → (r : GuardrailResult D) (next : A) → TakesPart disabled g
        → IsResult g.name (check g content) r
        → r.action ≢ block
        → IsNext apply content r next
        → Passes gs next last rs
        → Passes (g ∷ gs) content last (r ∷ rs)

module _ {C D X A : Type 0} (check : BaseGuardrail C D X → A → Option (GuardrailResult D))
    (apply : A → String → A) (finish : A → List (Message X)) (disabled : List String) where
  -- All let the content through: the answer is what it became, with the results in order.
  abbrev pub Passed :
      Guardrails C D X → A → Bool → List (GuardrailResult D) → PipelineResult D X → Type 0
  Passed gs content had results answer =
      (last : A) × (rs : List (GuardrailResult D)) × Passes check apply disabled gs content last rs
      × (answer ≡ record {
        action = (if had || any changes rs then modify else allow);
        modified_messages = some (finish last);
        blocking_result = none;
        results = results ++ rs;
      })

  -- One that is asked blocks what those before it let through: the answer is its result, and nothing
  -- of those after it.
  abbrev pub Blocked : Guardrails C D X → A → List (GuardrailResult D) → PipelineResult D X → Type 0
  Blocked gs content results answer =
      (before : Guardrails C D X) × (g : BaseGuardrail C D X) × (after : Guardrails C D X)
      × (last : A) × (rs : List (GuardrailResult D)) × (r : GuardrailResult D) × (gs
          ≡ before ++ g ∷ after)
      × Passes check apply disabled before content last rs
      × TakesPart disabled g
      × IsResult g.name (check g last) r
      × (r.action ≡ block)
      × (answer ≡ record {
        action = block;
        modified_messages = none;
        blocking_result = some r;
        results = results ++ (rs ++ r ∷ []);
      })

  abbrev Outcome :
      Guardrails C D X → A → Bool → List (GuardrailResult D) → PipelineResult D X → Type 0
  Outcome gs content had results answer =
      Passed gs content had results answer ⊎ Blocked gs content results answer

  Outcome-skip :
      (g : BaseGuardrail C D X) (gs : Guardrails C D X) (content : A) (had : Bool)
      (results : List (GuardrailResult D)) (answer : PipelineResult D X)
      → LeftOut disabled g
      → Outcome gs content had results answer
      → Outcome (g ∷ gs) content had results answer
  Outcome-skip g gs content had results answer f (inl (last, rs, p, e)) =
      inl (last, rs, skip f p, e)
  Outcome-skip g gs content had results answer f
        (inr (before, h, after, last, rs, r, e, p, t, i, b, q)) =
      inr (g ∷ before, h, after, last, rs, r, ap (λ hs. g ∷ hs) e, skip f p, t, i, b, q)

  or_any :
      (had : Bool) (r : GuardrailResult D) (rs : List (GuardrailResult D))
      → ((had || changes r) || any changes rs) ≡ (had || any changes (r ∷ rs))
  or_any had r rs = ground arith

  Outcome-pass :
      (g : BaseGuardrail C D X) (gs : Guardrails C D X) (content next : A) (had : Bool)
      (results : List (GuardrailResult D)) (answer : PipelineResult D X) (r : GuardrailResult D)
      → TakesPart disabled g
      → IsResult g.name (check g content) r
      → r.action ≢ block
      → IsNext apply content r next
      → Outcome gs next (had || changes r) (results ++ r ∷ []) answer
      → Outcome (g ∷ gs) content had results answer
  Outcome-pass g gs content next had results answer r t o f n (inl (last, rs, p, e)) = inl (
    last,
    r ∷ rs,
    pass r next t o f n p,
    rw (← or_any had r rs, ← append_assoc results (r ∷ []) rs) e,
  )
  Outcome-pass g gs content next had results answer r t o f n
        (inr (before, h, after, last, rs, s, e, p, u, i, b, q)) =
      inr (
        g ∷ before,
        h,
        after,
        last,
        r ∷ rs,
        s,
        ap (λ hs. g ∷ hs) e,
        pass r next t o f n p,
        u,
        i,
        b,
        rw (← append_assoc results (r ∷ []) (rs ++ s ∷ [])) q,
      )

  next_lem :
      (content : A) (r : GuardrailResult D)
      → IsNext apply content r
          (next_content apply content (modification r.action r.modified_content))
  next_lem content r =
      let n = next_by apply content r.action r.modified_content in
      record { changed = n.0; kept = n.1 }

  pub pipeline_lem :
      (gs : Guardrails C D X) (content : A) (had : Bool) (results : List (GuardrailResult D))
      → Outcome gs content had results (pipeline check apply finish disabled gs content had results)
  unfolding pipeline
  pipeline_lem [] content had results = inl (content, [], done, ground (arith, append-nil results))
  pipeline_lem (g ∷ gs) content had results =
      let r = named_result g.name (check g content) in
      let i = named_result-IsResult g.name (check g content) in
      let next = next_content apply content (modification r.action r.modified_content) in
      elim (Bool-cases (runs disabled g)) [
        | inl t ↦
            let part = runs-TakesPart disabled g t in
            elim (Bool-cases (is_block r.action)) [
              | inl b ↦ inr (
                [],
                g,
                gs,
                content,
                [],
                r,
                refl,
                done,
                part,
                i,
                (is_block_lem r.action).0 b,
                rw t (rw b refl),
              )
              | inr f ↦ rw t (
                  rw f (
                    Outcome-pass g gs content next had results _ r part i
                      ((is_block_lem r.action).1 f) (next_lem content r)
                      (rw (← or_modified-changes had r.action r.modified_content) (
                        pipeline_lem gs next
                          (or_modified had (modification r.action r.modified_content))
                          (results ++ r ∷ [])))))
            ]
        | inr f ↦ rw f (
            Outcome-skip g gs content had results _ (runs-LeftOut disabled g f)
              (pipeline_lem gs content had results))
      ]

module _ {C D X : Type 0} (gs : Guardrails C D X) (context : C) (disabled : List String) where
  -- A run on a request ends in one of two ways. Either every guardrail that is enabled and not named
  -- in `disabled` lets the content through, where a check that raises allows it as it is, each seeing
  -- what the modifications of those before it made of the messages: then the answer has the last
  -- messages and every result in order, under the guardrails' names, and says `modify` exactly when
  -- some result changed them. Or one blocks what those before it let through: then the answer is that
  -- block, with the results up to it and no messages.
  pub run_request_guardrails_lem :
      (parse_list : String → Option (List (Message X))) (messages : List (Message X))
      → Passed
          (λ g content. g.check_request content context)
          (apply_modification parse_list)
          (λ content. content)
          disabled
          gs
          messages
          false
          []
          (run_request_guardrails parse_list gs messages context disabled)
        ⊎ Blocked
            (λ g content. g.check_request content context)
            (apply_modification parse_list)
            (λ content. content)
            disabled
            gs
            messages
            []
            (run_request_guardrails parse_list gs messages context disabled)
  unfolding run_request_guardrails
  run_request_guardrails_lem parse_list messages = pipeline_lem _ _ _ disabled gs messages false []

  -- A run on a response ends in the same two ways; the text that the guardrails leave is the one
  -- message of the answer, from the assistant.
  pub run_response_guardrails_lem :
      (response : String)
      → Passed
          (λ g content. g.check_response content context)
          (λ content m. m)
          (λ content. (("role", text "assistant") ∷ ("content", text content) ∷ []) ∷ [])
          disabled
          gs
          response
          false
          []
          (run_response_guardrails gs response context disabled)
        ⊎ Blocked
            (λ g content. g.check_response content context)
            (λ content m. m)
            (λ content. (("role", text "assistant") ∷ ("content", text content) ∷ []) ∷ [])
            disabled
            gs
            response
            []
            (run_response_guardrails gs response context disabled)
  unfolding run_response_guardrails
  run_response_guardrails_lem response = pipeline_lem _ _ _ disabled gs response false []
