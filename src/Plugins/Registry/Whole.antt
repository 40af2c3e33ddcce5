-- ===== src/Plugins/Registry/Whole.antt =====
-- The two dictionaries of a registry belong together.
use routerbot.Base.{
  ℕ, ◌≡◌, refl, sym, ◌∙◌, subst, String, some, Bool, true, false, List, [], ◌∷◌, All, All-mono,
  keep, values, Dict, lookup, insert, remove, string_eq, ◌==◌, eq_iff, lookup-insert, lookup-remove,
  insert-All, Bool-cases, inl, inr, eqb,
}
use routerbot.Plugins.Registry.{
  PluginType, PluginInfo, PluginRegistry, activate, fail, update_info, init, register, unregister,
  hooks_of, is_active, get_hooks_by_type, clear, set_up, set_up_failed, Call, add, drop, finish,
  finish_failed, wipe, run,
}

module _ {H : Type 0} where
  -- An entry of the metadata stands under its own name, which has a hook.
  abbrev HasHook : Dict String H → String × PluginInfo → Type 0
  HasHook plugins p = (p.0 ≡ p.1.name) × (h : H) × (lookup p.0 plugins ≡ some h)

  abbrev pub IsWhole : PluginRegistry H → Type 0
  IsWhole r = All (HasHook r.plugins) r.info

  HasHook-insert :
      (name : String) (hook : H) (plugins : Dict String H) (p : String × PluginInfo)
      → HasHook plugins p
      → HasHook (insert name hook plugins) p
  HasHook-insert name hook plugins p (s, h, e) = elim (Bool-cases (name == p.0)) [
    | inl t ↦ (s, hook, lookup-insert name p.0 hook plugins ∙ rw t refl)
    | inr f ↦ (s, h, lookup-insert name p.0 hook plugins ∙ rw f e)
  ]

  register-IsWhole :
      (hook : H) (i : PluginInfo) (r : PluginRegistry H) → IsWhole r → IsWhole (register hook i r)
  unfolding register
  register-IsWhole hook i r w =
      insert-All (HasHook (insert i.name hook r.plugins)) i.name i r.info
        (
          refl,
          hook,
          lookup-insert i.name i.name hook r.plugins ∙ rw ((eq_iff i.name i.name).1 refl) refl,
        )
        (All-mono {P = HasHook r.plugins} r.info w (λ p. HasHook-insert i.name hook r.plugins p))

  remove-HasHook :
      (name : String) (plugins : Dict String H) (info : Dict String PluginInfo)
      → All (HasHook plugins) info
      → All (HasHook (remove name plugins)) (remove name info)
  unfolding remove
  remove-HasHook name plugins [] w = tt
  remove-HasHook name plugins ((k, i) ∷ info) ((s, h, e), w) =
      let rest = remove-HasHook name plugins info w in
      elim (Bool-cases (k == name)) [
        | inl t ↦ rw t rest
        | inr f ↦ rw f (
          (
            s,
            h,
            lookup-remove name k plugins ∙ elim (Bool-cases (name == k)) [
              | inl y ↦
                  let z : true ≡ false = sym ((eq_iff k name).1 (sym ((eq_iff name k).0 y))) ∙ f in
                  cc
              | inr n ↦ rw n e
            ],
          ),
          rest,
        )
      ]

  update-HasHook :
      (ref : ℕ) (f : PluginInfo → PluginInfo) (plugins : Dict String H)
      (info : Dict String PluginInfo)
      → ((i : PluginInfo) → (f i).name ≡ i.name)
      → All (HasHook plugins) info
      → All (HasHook plugins) (update_info ref f info)
  update-HasHook ref f plugins [] same w = tt
  update-HasHook ref f plugins ((k, i) ∷ info) same ((s, h, e), w) =
      let rest = update-HasHook ref f plugins info same w in
      elim (Bool-cases (eqb i.ref ref)) [
        | inl t ↦ rw t ((s ∙ sym (same i), h, e), rest)
        | inr n ↦ rw n ((s, h, e), rest)
      ]

  run-IsWhole : (cs : List (Call H)) (r : PluginRegistry H) → IsWhole r → IsWhole (run r cs)
  unfolding run unregister set_up set_up_failed clear
  run-IsWhole [] r w = w
  run-IsWhole (add hook i ∷ cs) r w =
      run-IsWhole cs (register hook i r) (register-IsWhole hook i r w)
  run-IsWhole (drop name ∷ cs) r w =
      run-IsWhole cs (unregister name r).1 (remove-HasHook name r.plugins r.info w)
  run-IsWhole (finish now ref ∷ cs) r w =
      run-IsWhole cs (set_up now ref r)
        (update-HasHook ref (activate now) r.plugins r.info (λ i. refl) w)
  run-IsWhole (finish_failed message ref ∷ cs) r w =
      run-IsWhole cs (set_up_failed message ref r)
        (update-HasHook ref (fail message) r.plugins r.info (λ i. refl) w)
  run-IsWhole (wipe ∷ cs) r w = run-IsWhole cs (clear r) tt

  -- Hooks that stand under the names of plugins, one for each.
  abbrev pub Stand : Dict String H → List PluginInfo → List H → Type 0
  Stand plugins [] [] = Unit
  Stand plugins [] (h ∷ hs) = ⊥
  Stand plugins (i ∷ is) [] = ⊥
  Stand plugins (i ∷ is) (h ∷ hs) = (lookup i.name plugins ≡ some h) × Stand plugins is hs

  found :
      (plugins : Dict String H) (test : PluginInfo → Bool) (info : Dict String PluginInfo)
      → All (HasHook plugins) info
      → (hs : List H) × (hooks_of (keep test (values info)) plugins ≡ some hs)
        × Stand plugins (keep test (values info)) hs
  unfolding hooks_of
  found plugins test [] w = ([], refl, tt)
  found plugins test ((k, i) ∷ info) ((s, h, e), w) =
      let (hs, a, b) = found plugins test info w in
      let e' : lookup i.name plugins ≡ some h = subst (λ n. lookup n plugins ≡ some h) s e in
      elim (Bool-cases (test i)) [
        | inl t ↦ rw t (h ∷ hs, rw (e', a) refl, (e', b))
        | inr f ↦ rw f (hs, a, b)
      ]

  -- Whatever was registered, removed, set up or cleared, and in whichever order, asking for the hooks
  -- of a type never fails, and answers with one hook for each active plugin of the type, the one that
  -- is registered under its name, in the order of the plugins.
  pub get_hooks_by_type-run :
      (cs : List (Call H)) (plugin_type : PluginType)
      → let r = run init cs in
        (hs : List H) × (get_hooks_by_type plugin_type r ≡ some hs)
        × Stand r.plugins (keep (is_active plugin_type) (values r.info)) hs
  unfolding get_hooks_by_type
  get_hooks_by_type-run cs plugin_type =
      let r : PluginRegistry H = run init cs in
      found r.plugins (is_active plugin_type) r.info (run-IsWhole cs init (unfold init in tt))
