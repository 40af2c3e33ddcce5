-- ===== src/Proxy/Guardrails/Modification.antt =====
-- How a modification changes the messages.
use routerbot.Base.{
  ◌≡◌, refl, sym, ap, ◌∙◌, String, Option, none, Bool, true, false, not, ◌&&◌, ◌||◌, List, [], ◌∷◌,
  ◌++◌, arith, All, All-append, if◌then◌else◌, append_assoc, append-nil, string_eq,
}
use mathlib.Core.List.{reverse, reverse-append, reverse-reverse}
use routerbot.Proxy.Guardrails.{Message, is_user, with_content, replace_loop, apply_modification}

module _ {X : Type 0} where
  loop_append :
      (content : String) (replaced : Bool) (updated xs ys : List (Message X))
      → replace_loop content replaced updated (xs ++ ys)
        ≡ (let (u, r) = replace_loop content replaced updated xs in replace_loop content r u ys)
  unfolding replace_loop
  loop_append content replaced updated [] ys = refl
  loop_append content replaced updated (x ∷ xs) ys =
      loop_append content (replaced || (not replaced && is_user x))
        (updated ++ (if not replaced && is_user x then with_content content x else x) ∷ []) xs ys

  -- After the replacement the loop copies.
  loop_replaced :
      (content : String) (updated xs : List (Message X))
      → replace_loop content true updated xs ≡ (updated ++ xs, true)
  unfolding replace_loop
  loop_replaced content updated [] = ground (arith, append-nil updated)
  loop_replaced content updated (x ∷ xs) =
      loop_replaced content (updated ++ x ∷ []) xs
      ∙ ap (λ us. (us, true)) (append_assoc updated (x ∷ []) xs)

  -- Until there is a user message it copies too.
  loop_others :
      (content : String) (updated xs : List (Message X))
      → All (λ m. is_user m ≡ false) xs
      → replace_loop content false updated xs ≡ (updated ++ xs, false)
  unfolding replace_loop
  loop_others content updated [] a = ground (arith, append-nil updated)
  loop_others content updated (x ∷ xs) a = rw a.0 (
      loop_others content (updated ++ x ∷ []) xs a.1
      ∙ ap (λ us. (us, false)) (append_assoc updated (x ∷ []) xs))

  reverse_split :
      (before after : List (Message X)) (m : Message X)
      → reverse (before ++ m ∷ after) ≡ (reverse after ++ m ∷ []) ++ reverse before
  reverse_split before after m =
      reverse-append before (m ∷ after)
      ∙ ap (λ xs. xs ++ reverse before) (reverse-append (m ∷ []) after)

  reverse-All :
      (xs : List (Message X))
      → All (λ m. is_user m ≡ false) xs
      → All (λ m. is_user m ≡ false) (reverse xs)
  reverse-All [] a = tt
  reverse-All (x ∷ xs) a =
      rw (reverse-append (x ∷ []) xs)
        (All-append (λ m. is_user m ≡ false) (reverse xs) (x ∷ []) (reverse-All xs a.1) (a.0, tt))

  loop_found :
      (content : String) (m : Message X) (xs ys : List (Message X))
      → is_user m ≡ true
      → All (λ n. is_user n ≡ false) xs
      → replace_loop content false [] ((xs ++ m ∷ []) ++ ys)
        ≡ ((xs ++ with_content content m ∷ []) ++ ys, true)
  loop_found content m xs ys u a =
      ap (replace_loop content false []) (append_assoc xs (m ∷ []) ys)
      ∙ loop_append content false [] xs (m ∷ ys)
      ∙ rw (loop_others content [] xs a) (
          unfold replace_loop in
          rw u (loop_replaced content (xs ++ with_content content m ∷ []) ys))

  module _ (parse_list : String → Option (List (Message X))) (content : String)
      (unparsed : parse_list content ≡ none) where
    -- A modification that does not parse as a list puts its text into the last user message, and
    -- leaves that message's other fields and all the other messages as they are.
    pub apply_modification_last :
        (before after : List (Message X)) (m : Message X)
        → is_user m ≡ true
        → All (λ n. is_user n ≡ false) after
        → apply_modification parse_list (before ++ m ∷ after) content
          ≡ before ++ with_content content m ∷ after
    unfolding apply_modification
    apply_modification_last before after m u a = rw unparsed (
        rw (reverse_split before after m) (
          rw (loop_found content m (reverse after) (reverse before) u (reverse-All after a)) (
            ap reverse (sym (reverse_split before after (with_content content m)))
            ∙ reverse-reverse (before ++ with_content content m ∷ after))))

    -- Where no message is a user's, such a modification changes nothing.
    pub apply_modification_none :
        (messages : List (Message X))
        → All (λ n. is_user n ≡ false) messages
        → apply_modification parse_list messages content ≡ messages
    unfolding apply_modification
    apply_modification_none messages a =
        rw unparsed (rw (loop_others content [] (reverse messages) (reverse-All messages a)) refl)
