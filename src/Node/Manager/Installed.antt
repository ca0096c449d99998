-- ===== src/Node/Manager/Installed.antt =====
-- What an installation and a removal do to the registry.
use claw_mem.Prelude.{
  if◌then◌else◌, any_of, Result, ok, err, ℕ, zero, suc, ◌+◌, ◌≤◌, ◌<◌, String, ◌≡◌, true, false,
  Option, none, some, List, arith, ◌==◌, leb→le, leb, is_some, guard, >>=-eq_ok, if_both, refl, sym,
  subst, ◌∙◌, not, result_both, guard-ok, Bool-cases, ap, inl, inr, Bool, eq_iff, eq_refl,
  option_both,
}
use claw_mem.Node.Types.{NodeEntry, NodeRegistry}
use claw_mem.Node.Registry.{IsRegistry, Nodes, written}
use claw_mem.Node.Manager.{
  Host, InstallOptions, NodeType, Effect, check_install, install_as, generate_default_name,
  first_free, candidate, entry_of, advertised_of, is_node_name, minimum_bytes, install, remove_node,
  stop_node,
}

absent : (known : Option NodeEntry) → not (is_some known) ≡ true → known ≡ none
absent none k = refl
absent (some n) k = cc

module _ (h : Host) where
  first_free-free :
      (t : NodeType) (existing : List NodeEntry) (now left i k : ℕ)
      → k < left
      → any_of (λ n. n.name == candidate h t (i + k)) existing ≡ false
      → any_of (λ n. n.name == first_free h t existing now left i) existing ≡ false
  unfolding first_free
  first_free-free t existing now zero i k b f = ground arith
  first_free-free t existing now (suc left) i zero b f =
      let here : i + 0 ≡ i = omega arith in
      let free = subst (λ m. any_of (λ n. n.name == candidate h t m) existing ≡ false) here f in
      if_both (λ (name : String). any_of (λ n. n.name == name) existing ≡ false)
        (any_of (λ n. n.name == candidate h t i) existing) _ _ (λ taken. cc) (λ _. free)
  first_free-free t existing now (suc left) i (suc k) b f =
      let on : i + suc k ≡ (i + 1) + k = omega arith in
      let free = subst (λ m. any_of (λ n. n.name == candidate h t m) existing ≡ false) on f in
      if_both (λ (name : String). any_of (λ n. n.name == name) existing ≡ false)
        (any_of (λ n. n.name == candidate h t i) existing) _ _
        (λ taken. first_free-free t existing now left (i + 1) k (omega arith) free) (λ here. here)

  -- Where one of the first hundred names of the type is free: the name that is made up is that of no
  -- existing node.
  pub generate_default_name-free :
      (t : NodeType) (existing : List NodeEntry) (now k : ℕ)
      → k < 100
      → any_of (λ n. n.name == candidate h t (1 + k)) existing ≡ false
      → any_of (λ n. n.name == generate_default_name h t existing now) existing ≡ false
  unfolding generate_default_name
  generate_default_name-free t existing now k b f = first_free-free t existing now 100 1 k b f

  check_install-ok :
      (o : InstallOptions) (name : String) (known : Option NodeEntry)
      → check_install h o name known ≡ ok tt
      → (known ≡ none) × (is_node_name name ≡ true) × (minimum_bytes ≤ advertised_of h o)
  unfolding check_install
  check_install-ok o name known e =
      let (_, a, e1) = >>=-eq_ok (guard (not (is_some known)) _) _ e in
      let (_, b, e2) = >>=-eq_ok (guard (is_node_name name) _) _ e1 in
      let (_, c, e3) = >>=-eq_ok (guard (leb minimum_bytes (advertised_of h o)) _) _ e2 in
      (
        absent known (guard-ok _ _ _ a),
        guard-ok _ _ _ b,
        leb→le minimum_bytes (advertised_of h o) (guard-ok _ _ _ c),
      )

  module _ {S : Type 0} (r : NodeRegistry S) (Valid : S → Type 0) (view : S → Nodes)
      (laws : IsRegistry r Valid view) where
    -- What an installation leaves: of an error nothing, of a success one new entry.
    pub record IsInstalled (now : ℕ) (o : InstallOptions) (s : S)
        (reply : (Result String String × List Effect) × S) : Type 0 where
      pub refused : (e : String) → reply.0.0 ≡ err e → (j : String) → view reply.1 j ≡ view s j
      pub new : (name : String) → reply.0.0 ≡ ok name → view s name ≡ none
      pub named : (name : String) → reply.0.0 ≡ ok name → is_node_name name ≡ true
      pub enough : (name : String) → reply.0.0 ≡ ok name → minimum_bytes ≤ advertised_of h o
      pub added :
          (name : String)
          → reply.0.0 ≡ ok name
          → (j : String)
          → view reply.1 j
            ≡ (if name == j then some (written now (entry_of h o name) none) else view s j)
      pub valid : Valid reply.1

    failed :
        (now : ℕ) (o : InstallOptions) (s : S) (e : String)
        (reply : (Result String String × List Effect) × S)
        → reply.0.0 ≡ err e
        → ((j : String) → view reply.1 j ≡ view s j)
        → Valid reply.1
        → IsInstalled now o s reply
    failed now o s e reply k same v = record {
      refused = λ _ _. same;
      new = λ _ q. cc;
      named = λ _ q. cc;
      enough = λ _ q. cc;
      added = λ _ q. cc;
      valid = v;
    }

    succeeded :
        (now : ℕ) (o : InstallOptions) (s : S) (name : String)
        (reply : (Result String String × List Effect) × S)
        → reply.0.0 ≡ ok name
        → (view s name ≡ none) × (is_node_name name ≡ true) × (minimum_bytes ≤ advertised_of h o)
        → ((j : String)
            → view reply.1 j
              ≡ (if name == j then some (written now (entry_of h o name) none) else view s j))
        → Valid reply.1
        → IsInstalled now o s reply
    succeeded now o s name reply k checked a v =
        let other : (n : String) → reply.0.0 ≡ ok n → name ≡ n = λ n q. cc in
        record {
          refused = λ _ q. cc;
          new = λ n q. subst (λ m. view s m ≡ none) (other n q) checked.0;
          named = λ n q. subst (λ m. is_node_name m ≡ true) (other n q) checked.1;
          enough = λ _ _. checked.2;
          added = λ n q j.
              subst
                (λ m.
                  view reply.1 j
                  ≡ (if m == j then some (written now (entry_of h o m) none) else view s j))
                (other n q) (a j);
          valid = v;
        }

    install_as-IsInstalled :
        (now : ℕ) (o : InstallOptions) (name : String) (s : S)
        → Valid s
        → IsInstalled now o s (install_as h r now o name s)
    unfolding install_as
    install_as-IsInstalled now o name s v =
        let found = laws.lookup_reply name s v in
        let same = laws.lookup_view name s v in
        let valid = laws.lookup_valid name s v in
        let input = entry_of h o name in
        let P : (Result String String × List Effect) × S → Type 0 = λ q. IsInstalled now o s q in
        result_both P (check_install h o name (r.lookup name s).0) _ _
          (λ e _. failed now o s e _ refl same valid)
          (λ u q.
            result_both P h.write_key _ _ (λ e _. failed now o s e _ refl same valid)
              (λ _ _.
                result_both P h.write_config _ _ (λ e _. failed now o s e _ refl same valid)
                  (λ _ _.
                    let checked = check_install-ok o name (r.lookup name s).0 q in
                    let none_there = sym found ∙ checked.0 in
                    option_both P (r.upsert now input (r.lookup name s).1).0 _ _
                      (λ n. let wrote = laws.upsert_reply now input (r.lookup name s).1 valid in cc)
                      (λ _ _.
                        succeeded now o s name _ refl (none_there, checked.1, checked.2)
                          (λ j.
                            laws.upsert_view now input (r.lookup name s).1 valid j
                            ∙ rw (same name, none_there, same j) refl)
                          (laws.upsert_valid now input (r.lookup name s).1 valid)))))

    listed-IsInstalled :
        (now : ℕ) (o : InstallOptions) (s : S)
        → Valid s
        → IsInstalled now o s (
            install_as h r now o
              (generate_default_name h o.node_type (r.list s).0 now)
              (r.list s).1)
    listed-IsInstalled now o s v =
        let same = laws.list_view s v in
        let w =
          install_as-IsInstalled now o (generate_default_name h o.node_type (r.list s).0 now)
            (r.list s).1 (laws.list_valid s v) in
        record {
          refused = λ e q j. w.refused e q j ∙ same j;
          new = λ n q. sym (same n) ∙ w.new n q;
          named = w.named;
          enough = w.enough;
          added = λ n q j. w.added n q j ∙ rw (same j) refl;
          valid = w.valid;
        }

    install-IsInstalled :
        (now : ℕ) (o : InstallOptions) (s : S) → Valid s → IsInstalled now o s (install h r now o s)
    unfolding install
    install-IsInstalled now o s v =
        let P : (Result String String × List Effect) × S → Type 0 = λ x. IsInstalled now o s x in
        option_both P o.name _ _ (λ _. listed-IsInstalled now o s v)
          (λ n _.
            if_both P (n == "") _ _ (λ _. listed-IsInstalled now o s v)
              (λ _. install_as-IsInstalled now o n s v))

    -- An installation that succeeds, in any registry that keeps its laws: the name was free and is of
    -- the allowed characters, the node offers at least 256 MiB, and exactly its entry is new.
    pub install-ok :
        (now : ℕ) (o : InstallOptions) (s : S) (name : String)
        → Valid s
        → (install h r now o s).0.0 ≡ ok name
        → (view s name ≡ none)
          × (is_node_name name ≡ true)
          × (minimum_bytes ≤ advertised_of h o)
          × ((j : String)
              → view (install h r now o s).1 j
                ≡ (if name == j then some (written now (entry_of h o name) none) else view s j))
    install-ok now o s name v q =
        let w = install-IsInstalled now o s v in
        (w.new name q, w.named name q, w.enough name q, w.added name q)

    -- Where the registry keeps its laws, its writes succeed among them: an installation that fails, by its
    -- checks, the quota or the writing of the key or the configuration, leaves the nodes of the registry
    -- as they were.
    pub install-err :
        (now : ℕ) (o : InstallOptions) (s : S) (e : String)
        → Valid s
        → (install h r now o s).0.0 ≡ err e
        → (j : String) → view (install h r now o s).1 j ≡ view s j
    install-err now o s e v q = (install-IsInstalled now o s v).refused e q

    abbrev Unchanged : S → S → Type 0
    Unchanged s q = ((j : String) → view q j ≡ view s j) × Valid q

    stop_node-Unchanged : (name : String) (s : S) → Valid s → Unchanged s (stop_node h r name s).1
    unfolding stop_node
    stop_node-Unchanged name s v =
        option_both (λ (x : (Result String (Unit {0}) × List Effect) × S). Unchanged s x.1)
          (r.lookup name s).0 _ _ (λ _. (laws.lookup_view name s v, laws.lookup_valid name s v))
          (λ _ _. (laws.lookup_view name s v, laws.lookup_valid name s v))

    remove_node-view :
        (name : String) (delete_data : Bool) (s : S)
        → Valid s
        → ((remove_node h r name delete_data s).0.0 ≡ some (is_some (view s name)))
          × ((j : String)
              → view (remove_node h r name delete_data s).1 j
                ≡ (if name == j then none else view s j))
    unfolding remove_node stop_node
    remove_node-view name delete_data s v =
        let same = laws.lookup_view name s v in
        let found = laws.lookup_reply name s v in
        let (kept, valid) =
          stop_node-Unchanged name (r.lookup name s).1 (laws.lookup_valid name s v) in
        option_both
          (λ (x : (Option Bool × List Effect) × S).
            (x.0.0 ≡ some (is_some (view s name)))
            × ((j : String) → view x.1 j ≡ (if name == j then none else view s j)))
          (r.lookup name s).0 _ _
          (λ q.
            let nothing : view s name ≡ none = sym found ∙ q in
            (
              ap (λ o. some (is_some o)) (sym nothing),
              λ j. same j ∙ elim (Bool-cases (name == j)) [
                | inl e ↦ rw e (subst (λ i. view s i ≡ none) ((eq_iff name j).0 e) nothing)
                | inr e ↦ rw e refl
              ],
            ))
          (λ _ _. (
            laws.remove_reply name _ valid ∙ ap (λ o. some (is_some o)) (kept name ∙ same name),
            λ j. laws.remove_view name _ valid j ∙ rw (kept j, same j) refl,
          ))

    -- Where an installation succeeds: the removal of the node gives the nodes back that there were.
    pub remove_node-install :
        (now : ℕ) (o : InstallOptions) (s : S) (name : String) (delete_data : Bool)
        → Valid s
        → (install h r now o s).0.0 ≡ ok name
        → ((remove_node h r name delete_data (install h r now o s).1).0.0 ≡ some true)
          × ((j : String)
              → view (remove_node h r name delete_data (install h r now o s).1).1 j ≡ view s j)
    remove_node-install now o s name delete_data v q =
        let w = install-IsInstalled now o s v in
        let (gone, left) = remove_node-view name delete_data (install h r now o s).1 w.valid in
        (
          gone ∙ ap (λ o. some (is_some o)) (w.added name q name) ∙ rw (eq_refl name) refl,
          λ j. left j ∙ elim (Bool-cases (name == j)) [
            | inl e ↦ rw e (sym (subst (λ i. view s i ≡ none) ((eq_iff name j).0 e) (w.new name q)))
            | inr e ↦ rw e (w.added name q j ∙ rw e refl)
          ],
        )
