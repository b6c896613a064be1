-- ===== src/Reuse/Stack.antt =====
-- The specification of reuse distances: the lines in the order of their last access, oldest first,
-- each with the cycle of that access. The distance of an access is the number of lines that have
-- been accessed since the line was: its depth in the stack of an LRU cache.
use mathlib.Core.List.{map-append}
use ibm_pisa.Base.{
  ℕ, suc, ◌<◌, ◌≡◌, refl, sym, ap, ◌∙◌, Option, none, some, List, [], ◌∷◌, ◌++◌, map, arith, length,
  true, Above, Below, IsSorted, ◌==◌, if◌then◌else◌, append-nil,
}
use ibm_pisa.Splay.SortedKeys.{
  insert_key, remove_key, has_key, count_above, insert_key_between, count_above-Above,
  remove_key-Above,
}

abbrev pub Stack : Type 0
Stack = List (ℕ × ℕ)

abbrev pub cycles : Stack → List ℕ
cycles = map (λ e. e.1)

-- The cycle of the last access to a line.
unfoldable pub last_access : ℕ → Stack → Option ℕ
last_access l [] = none
last_access l ((j, c) ∷ s) = if j == l then some c else last_access l s

unfoldable pub forget : ℕ → Stack → Stack
forget l [] = []
forget l ((j, c) ∷ s) = if j == l then s else (j, c) ∷ forget l s

-- The number of lines accessed after the line.
unfoldable pub depth : ℕ → Stack → ℕ
depth l [] = 0
depth l ((j, c) ∷ s) = if j == l then length s else depth l s

unfoldable pub access : ℕ → ℕ → Stack → Stack
unfolding forget
access l c s = forget l s ++ (l, c) ∷ []

-- No line stands in the stack twice.
abbrev pub IsDistinct : Stack → Type 0
IsDistinct [] = Unit
IsDistinct ((j, c) ∷ s) = (last_access j s ≡ none) × IsDistinct s

last_access-append :
    (j l c : ℕ) (s : Stack)
    → last_access j (s ++ (l, c) ∷ [])
      ≡ (elim (last_access j s) [ none ↦ if l == j then some c else none | some d ↦ some d ])
unfolding last_access
last_access-append j l c [] = refl
last_access-append j l c ((i, d) ∷ s) = ground (arith, last_access-append j l c s)

last_access-forget :
    (j l : ℕ) (s : Stack)
    → IsDistinct s
    → last_access j (forget l s) ≡ (if l == j then none else last_access j s)
unfolding last_access forget
last_access-forget j l [] h = ground arith
last_access-forget j l ((i, d) ∷ s) h = ground (arith, last_access-forget j l s h.1)

pub last_access-access :
    (j l c : ℕ) (s : Stack)
    → IsDistinct s
    → last_access j (access l c s) ≡ (if l == j then some c else last_access j s)
unfolding access
last_access-access j l c s h =
    ground (arith, last_access-append j l c (forget l s), last_access-forget j l s h)

IsDistinct-append :
    (l c : ℕ) (s : Stack) → IsDistinct s → last_access l s ≡ none → IsDistinct (s ++ (l, c) ∷ [])
unfolding last_access
IsDistinct-append l c [] h e = (refl, tt)
IsDistinct-append l c ((i, d) ∷ s) h e =
    ground (arith, IsDistinct-append l c s h.1, last_access-append i l c s)

IsDistinct-forget : (l : ℕ) (s : Stack) → IsDistinct s → IsDistinct (forget l s)
unfolding forget last_access
IsDistinct-forget l [] h = tt
IsDistinct-forget l ((i, d) ∷ s) h =
    ground (arith, IsDistinct-forget l s h.1, last_access-forget i l s h.1)

pub access-IsDistinct : (l c : ℕ) (s : Stack) → IsDistinct s → IsDistinct (access l c s)
unfolding access
access-IsDistinct l c s h =
    IsDistinct-append l c (forget l s) (IsDistinct-forget l s h)
      (ground (arith, last_access-forget l l s h))

-- What the splay tree keeps of the stack: with increasing cycles, a line's last cycle stands for it.
Above-last_access : (a l c : ℕ) (s : Stack) → Above a (cycles s) → last_access l s ≡ some c → a < c
unfolding last_access
Above-last_access a l c [] p e = ground arith
Above-last_access a l c ((i, d) ∷ s) p e = ground (arith, Above-last_access a l c s p.1)

pub has_key-cycles : (l c : ℕ) (s : Stack) → last_access l s ≡ some c → has_key c (cycles s) ≡ true
unfolding last_access has_key
has_key-cycles l c [] e = ground arith
has_key-cycles l c ((i, d) ∷ s) e = ground (arith, has_key-cycles l c s)

length-cycles : (s : Stack) → length (cycles s) ≡ length s
length-cycles [] = refl
length-cycles (x ∷ s) = ap suc (length-cycles s)

pub count_above-cycles :
    (l c : ℕ) (s : Stack)
    → IsSorted (cycles s)
    → last_access l s ≡ some c
    → count_above c (cycles s) ≡ depth l s
unfolding last_access count_above depth
count_above-cycles l c [] h e = ground arith
count_above-cycles l c ((i, d) ∷ s) h e = ground (
  arith,
  count_above-cycles l c s h.1,
  count_above-Above d (cycles s) h.0,
  length-cycles s,
  Above-last_access d l c s h.0,
)

pub remove_key-cycles :
    (l c : ℕ) (s : Stack)
    → IsSorted (cycles s)
    → last_access l s ≡ some c
    → remove_key c (cycles s) ≡ cycles (forget l s)
unfolding last_access remove_key forget
remove_key-cycles l c [] h e = ground arith
remove_key-cycles l c ((i, d) ∷ s) h e = ground (
  arith,
  remove_key-cycles l c s h.1,
  remove_key-Above d (cycles s) h.0,
  Above-last_access d l c s h.0,
)

pub forget_absent : (l : ℕ) (s : Stack) → last_access l s ≡ none → forget l s ≡ s
unfolding last_access forget
forget_absent l [] e = refl
forget_absent l ((i, d) ∷ s) e = ground (arith, forget_absent l s)

pub Below-forget : (b l : ℕ) (s : Stack) → Below b (cycles s) → Below b (cycles (forget l s))
unfolding forget
Below-forget b l [] h = tt
Below-forget b l ((i, d) ∷ s) h = ground (arith, Below-forget b l s h.1)

-- A later cycle goes to the end of the cycles.
pub insert_key-cycles :
    (l c : ℕ) (s : Stack)
    → Below c (cycles s)
    → insert_key c (cycles (forget l s)) ≡ cycles (access l c s)
unfolding access
insert_key-cycles l c s h =
    let below = Below-forget c l s h in
    ap (insert_key c) (sym (append-nil (cycles (forget l s))))
    ∙ insert_key_between c (cycles (forget l s)) [] below tt
    ∙ sym (map-append (λ e. e.1) (forget l s) ((l, c) ∷ []))
