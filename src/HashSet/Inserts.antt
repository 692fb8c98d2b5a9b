-- ===== src/HashSet/Inserts.antt =====
-- src/comm/struct/set.c: set_init and set_insert keep the set well formed, and what set_insert
-- returns is true of the keys in it.
use mathlib.Core.Path.{subst}
use jsonv.Base.{
  ℕ, zero, suc, ◌+◌, ◌≤◌, ◌<◌, ◌≡◌, ◌⊎◌, ◌↔◌, ◌∙◌, refl, sym, ap, false, ◌==◌, arith, inl, inr,
  some, List, [], ◌∷◌, take, length, set, length-set, replicate, length-replicate, Bool-cases, ltb,
  ==_iff,
}
use jsonv.Token.{Bytes}
use jsonv.HashSet.{
  InsertResult, key_is_uniq, table_is_full, key_already_exist, key_too_long, max_key_len, Entry,
  HashSet, empty_entry, filled_entry, probe, home, clear_entries, set_init, set_insert,
  floor_power_of_two,
}
use jsonv.HashSet.Members.{slot, Member, Reach, IsHashSet, slot-set, slot-set_ne}
use jsonv.HashSet.Probes.{home-lt, Reach-set, Probed, probe-Probed}

slot-replicate : (n i : ℕ) → slot (replicate n empty_entry) i ≡ empty_entry
slot-replicate zero i = refl
slot-replicate (suc n) zero = refl
slot-replicate (suc n) (suc i) = slot-replicate n i

abbrev pub cleared : ℕ → HashSet
cleared p = record { capacity = p; length = 0; entries = replicate p empty_entry }

-- A set without a slot in use is well formed and has no member.
pub cleared-IsHashSet : (p : ℕ) → IsHashSet (cleared p) × ((key : Bytes) → ¬ Member (cleared p) key)
cleared-IsHashSet p = (
  record {
    size = length-replicate p empty_entry;
    lengths = λ i. rw (slot-replicate p i) refl;
    short = λ i. rw (slot-replicate p i) (omega arith);
    reached = λ i h u key k. cc (ap (λ (x : Entry). x.used) (slot-replicate p i));
  },
  λ key m. cc (ap (λ (x : Entry). x.used) (slot-replicate p m.index), m.in_use),
)

take-clear_entries :
    (p : ℕ) (entries : List Entry)
    → p ≤ length entries
    → take p (clear_entries p entries) ≡ replicate p empty_entry
unfolding clear_entries
take-clear_entries zero [] h = refl
take-clear_entries zero (e ∷ entries) h = refl
take-clear_entries (suc p) [] h = absurd (omega arith)
take-clear_entries (suc p) (e ∷ entries) h =
    ap (◌∷◌ empty_entry) (take-clear_entries p entries (omega arith))

-- On an array that is long enough set_init makes the slots that it uses such a set, whatever they held.
pub set_init-cleared :
    (entries : List Entry) (capacity : ℕ)
    → floor_power_of_two capacity ≤ length entries
    → set_init entries capacity ≡ some (cleared (floor_power_of_two capacity))
unfolding set_init
set_init-cleared entries capacity h =
    let p = floor_power_of_two capacity in
    let fits : ltb (length entries) p ≡ false = ground arith in
    rw (set_init, fits, take-clear_entries p entries h)

-- The set after the slot i was filled.
abbrev with_entry : HashSet → ℕ → Bytes → HashSet
with_entry s i key = record s {
  length = s.length + 1;
  entries = set s.entries i (filled_entry key);
}

module _ (s : HashSet) (i : ℕ) (key : Bytes) (inv : IsHashSet s) (bound : i < s.capacity) where
  written :
      (j : ℕ)
      → ((j ≡ i) × (slot (with_entry s i key).entries j ≡ filled_entry key))
        ⊎ (slot (with_entry s i key).entries j ≡ slot s.entries j)
  written j = elim (Bool-cases (i == j)) [
    | inl e ↦
        let same = (==_iff i j).0 e in
        inl (
          sym same,
          subst (λ k. slot (set s.entries i (filled_entry key)) k ≡ filled_entry key) same
              (slot-set s.entries i (filled_entry key) (omega (arith, inv.size))),
        )
    | inr n ↦ inr (slot-set_ne s.entries i j (filled_entry key) (λ e. cc ((==_iff i j).1 e)))
  ]

  module _ (free : (slot s.entries i).used ≡ false) (short : length key ≤ max_key_len)
      (reach : Reach
        (with_entry s i key).entries
        s.capacity
        key
        s.capacity
        (home s.capacity key)) where
    with_entry-IsHashSet : IsHashSet (with_entry s i key)
    with_entry-IsHashSet = record {
      size = length-set s.entries i (filled_entry key) ∙ inv.size;
      lengths = λ j. elim (written j) [ inl (e, w) ↦ rw w refl | inr w ↦ rw w (inv.lengths j) ];
      short = λ j. elim (written j) [ inl (e, w) ↦ rw w short | inr w ↦ rw w (inv.short j) ];
      reached = λ j h u k e. elim (written j) [
        | inl (_, w) ↦
            subst
              (λ x. Reach (with_entry s i key).entries s.capacity x s.capacity (home s.capacity x))
              (sym (ap (λ (x : Entry). x.key) w) ∙ e) reach
        | inr w ↦
            Reach-set s.entries s.capacity k i (filled_entry key) s.capacity (home s.capacity k)
              free
              (inv.reached j h (sym (ap (λ (x : Entry). x.used) w) ∙ u) k
                (sym (ap (λ (x : Entry). x.key) w) ∙ e))
      ];
    }

  -- Its members are those that were, and the key.
  with_entry-Member :
      (slot s.entries i).used ≡ false
      → (k : Bytes) → Member (with_entry s i key) k ↔ (Member s k ⊎ (k ≡ key))
  with_entry-Member free k = (
    λ m. elim (written m.index) [
      | inl (_, w) ↦ inr (sym m.holds ∙ ap (λ (x : Entry). x.key) w)
      | inr w ↦ inl (record {
        index = m.index;
        bound = m.bound;
        in_use = sym (ap (λ (x : Entry). x.used) w) ∙ m.in_use;
        holds = sym (ap (λ (x : Entry). x.key) w) ∙ m.holds;
      })
    ],
    λ c. elim c [
      | inr e ↦
          let w = slot-set s.entries i (filled_entry key) (omega (arith, inv.size)) in
          record {
            index = i;
            bound = bound;
            in_use = ap (λ (x : Entry). x.used) w;
            holds = ap (λ (x : Entry). x.key) w ∙ sym e;
          }
      | inl m ↦
          let w =
            slot-set_ne s.entries i m.index (filled_entry key)
              (λ e. cc (ap (λ (j : ℕ). (slot s.entries j).used) e, m.in_use)) in
          record {
            index = m.index;
            bound = m.bound;
            in_use = ap (λ (x : Entry). x.used) w ∙ m.in_use;
            holds = ap (λ (x : Entry). x.key) w ∙ m.holds;
          }
    ],
  )

-- What each code of set_insert means.
abbrev pub Inserts : HashSet → Bytes → InsertResult × HashSet → Type 0
Inserts s key (key_is_uniq, s') =
    (¬ Member s key)
    × IsHashSet s'
    × (s'.length ≡ s.length + 1)
    × ((k : Bytes) → Member s' k ↔ (Member s k ⊎ (k ≡ key)))
Inserts s key (key_already_exist, s') = Member s key × (s' ≡ s)
Inserts s key (table_is_full, s') = (¬ Member s key) × (s' ≡ s)
Inserts s key (key_too_long, s') = (¬ Member s key) × (s' ≡ s)

-- A probe that comes nowhere shows that the key is no member.
unreached :
    (s : HashSet) (key : Bytes)
    → IsHashSet s
    → (¬ Reach s.entries s.capacity key s.capacity (home s.capacity key))
    → ¬ Member s key
unreached s key inv n m = n (inv.reached m.index m.bound m.in_use key m.holds)

Probed-Inserts :
    (s : HashSet) (key : Bytes) (r : InsertResult × HashSet)
    → IsHashSet s
    → length key ≤ max_key_len
    → Probed s key s.capacity (home s.capacity key) r
    → Inserts s key r
Probed-Inserts s key r inv short (inl (e, m)) = subst (Inserts s key) (sym e) (m, refl)
Probed-Inserts s key r inv short (inr (inl (e, n))) =
    subst (Inserts s key) (sym e) (unreached s key inv n, refl)
Probed-Inserts s key r inv short (inr (inr (i, b, free, e, n, reach))) =
    subst (Inserts s key) (sym e) (
      unreached s key inv n,
      with_entry-IsHashSet s i key inv b free short reach,
      refl,
      with_entry-Member s i key inv b free,
    )

-- On a well-formed set: if set_insert returns SET_KEY_IS_UNIQ, the key was no member, the set stays
-- well formed and its members are those that were and the key; on SET_KEY_ALREADY_EXIST it was a
-- member, on SET_TABLE_IS_FULL and SET_KEY_TOO_LONG it was none, and the set is the same.
pub set_insert-Inserts :
    (s : HashSet) (key : Bytes) → IsHashSet s → Inserts s key (set_insert s key)
unfolding set_insert
set_insert-Inserts s key inv = elim (Bool-cases (ltb max_key_len (length key))) [
  | inl long ↦
      let too_long : ¬ Member s key =
        λ m. absurd (ground (arith, inv.short m.index, ap length m.holds)) in
      rw long (too_long, refl)
  | inr short ↦ elim (Bool-cases (s.capacity == 0)) [
    | inl none_at_all ↦
        rw (short, none_at_all) ((λ (m : Member s key). absurd (ground (arith, m.bound))), refl)
    | inr some_slot ↦
        let h : 0 < s.capacity = ground arith in
        rw (short, some_slot)
          (Probed-Inserts s key (probe s.capacity (home s.capacity key) key s) inv (ground arith)
            (probe-Probed s.capacity (home s.capacity key) key s inv (home-lt s.capacity key h)))
  ]
]
