-- ===== src/Node/Registry/Replay.antt =====
-- A sequence of calls of a registry answers as a finite map does.
use claw_mem.Prelude.{
  if◌then◌else◌, is_some, ℕ, String, ◌≡◌, refl, ap, ◌∙◌, Bool, Option, none, some, List, [], ◌∷◌,
  ◌==◌,
}
use claw_mem.Node.Types.{NodeEntry, NodeEntryInput, NodeRegistry}
use claw_mem.Node.Registry.{IsRegistry, Nodes, written}

pub data Call : Type 0 where
  looks_up : String → Call
  writes : ℕ → NodeEntryInput → Call
  removes : String → Call

pub data Reply : Type 0 where
  found : Option NodeEntry → Reply
  wrote : Option NodeEntry → Reply
  removed : Option Bool → Reply

module _ {S : Type 0} (r : NodeRegistry S) where
  unfoldable pub call : Call → S → Reply × S
  call (looks_up k) s = (found (r.lookup k s).0, (r.lookup k s).1)
  call (writes now i) s = (wrote (r.upsert now i s).0, (r.upsert now i s).1)
  call (removes k) s = (removed (r.remove k s).0, (r.remove k s).1)

  unfoldable pub run : List Call → S → List Reply × S
  unfolding call
  run [] s = ([], s)
  run (c ∷ cs) s = let rest = run cs (call c s).1 in ((call c s).0 ∷ rest.0, rest.1)

-- The calls on the map itself.
abbrev pub answer : Call → Nodes → Reply
answer (looks_up k) n = found (n k)
answer (writes now i) n = wrote (some (written now i (n i.name)))
answer (removes k) n = removed (some (is_some (n k)))

abbrev pub change : Call → Nodes → Nodes
change (looks_up k) n j = n j
change (writes now i) n j = if i.name == j then some (written now i (n i.name)) else n j
change (removes k) n j = if k == j then none else n j

abbrev pub answers : List Call → Nodes → List Reply
answers [] n = []
answers (c ∷ cs) n = answer c n ∷ answers cs (change c n)

abbrev pub changes : List Call → Nodes → Nodes
changes [] n = n
changes (c ∷ cs) n = changes cs (change c n)

module _ {S : Type 0} (r : NodeRegistry S) (Valid : S → Type 0) (view : S → Nodes)
    (laws : IsRegistry r Valid view) where
  call-answer :
      (c : Call) (s : S) (n : Nodes)
      → Valid s
      → ((j : String) → view s j ≡ n j)
      → ((call r c s).0 ≡ answer c n)
        × ((j : String) → view (call r c s).1 j ≡ change c n j)
        × Valid (call r c s).1
  unfolding call
  call-answer (looks_up k) s n v e = (
    ap found (laws.lookup_reply k s v ∙ e k),
    λ j. laws.lookup_view k s v j ∙ e j,
    laws.lookup_valid k s v,
  )
  call-answer (writes now i) s n v e = (
    rw (laws.upsert_reply now i s v, e i.name) refl,
    λ j. laws.upsert_view now i s v j ∙ rw (e i.name, e j) refl,
    laws.upsert_valid now i s v,
  )
  call-answer (removes k) s n v e = (
    ap removed (laws.remove_reply k s v ∙ ap (λ o. some (is_some o)) (e k)),
    λ j. laws.remove_view k s v j ∙ rw (e j) refl,
    laws.remove_valid k s v,
  )

  -- A registry that keeps its laws answers every sequence of calls as the finite map does that it
  -- stands for, and stands for the map's state behind them.
  pub run-answers :
      (cs : List Call) (s : S) (n : Nodes)
      → Valid s
      → ((j : String) → view s j ≡ n j)
      → ((run r cs s).0 ≡ answers cs n)
        × ((j : String) → view (run r cs s).1 j ≡ changes cs n j)
        × Valid (run r cs s).1
  unfolding run
  run-answers [] s n v e = (refl, e, v)
  run-answers (c ∷ cs) s n v e =
      let (reply, same, valid) = call-answer c s n v e in
      let rest = run-answers cs (call r c s).1 (change c n) valid same in
      (rw (reply, rest.0) refl, rest.1, rest.2)
