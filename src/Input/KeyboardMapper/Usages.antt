-- ===== src/Input/KeyboardMapper/Usages.antt =====
-- shared/input/keyboard_mapper.cpp: the usages in the table of keys.
use espview.Base.{
  ℕ, ◌≤◌, ◌<◌, ◌≡◌, refl, sym, ap, ◌∙◌, arith, Bool, true, ◌&&◌, List, [], ◌∷◌, Option, none, some,
  ltb, ◌==◌, if◌then◌else◌, all_below, all_below-lt, All, Bool-cases, inl, inr, ltb→lt,
}
use espview.Input.Event.{is_valid_hid_usage}
use espview.Input.KeyboardMapper.{KeyMapResult, Entry, table, find_entry, map_key}

-- The first key of the table with the usage.
key_with : ℕ → List Entry → ℕ
key_with u [] = 0
key_with u (e ∷ es) = if e.usage == u then e.key else key_with u es

-- The key's usage is valid, and leads back to the key.
leads_back : ℕ → Option KeyMapResult → Bool
leads_back k none = true
leads_back k (some r) = is_valid_hid_usage r.hid_usage && key_with r.hid_usage table == k

below_table : all_below 75 (λ k. leads_back k (map_key k)) ≡ true
unfolding all_below leads_back map_key find_entry table key_with
below_table = refl

table_keys : All (λ (e : Entry). e.key < 75) table
unfolding table
table_keys = omega arith

find_entry_above :
    (k : ℕ) (es : List Entry) → 75 ≤ k → All (λ (e : Entry). e.key < 75) es → find_entry k es ≡ none
unfolding find_entry
find_entry_above k [] h b = refl
find_entry_above k (e ∷ es) h b = ground (arith, find_entry_above k es h b.1)

leads_back_lem : (k : ℕ) → leads_back k (map_key k) ≡ true
unfolding map_key leads_back
leads_back_lem k = elim (Bool-cases (ltb k 75)) [
  | inl below ↦
      all_below-lt 75 (λ (j : ℕ). leads_back j (map_key j)) k below_table (ltb→lt k 75 below)
  | inr above ↦ rw (find_entry_above k table (ground arith) table_keys) refl
]

usage_of :
    (k : ℕ) (r : KeyMapResult)
    → map_key k ≡ some r
    → (is_valid_hid_usage r.hid_usage ≡ true) × (key_with r.hid_usage table ≡ k)
unfolding leads_back
usage_of k r h =
    let t : leads_back k (some r) ≡ true = rw h at (leads_back_lem k) in
    (ground arith, ground arith)

-- Two keys that are mapped to the same usage are the same key, and the usage is one that the input
-- events may carry.
pub map_key-injective :
    (j k : ℕ) (r s : KeyMapResult)
    → map_key j ≡ some r
    → map_key k ≡ some s
    → r.hid_usage ≡ s.hid_usage
    → (j ≡ k) × (is_valid_hid_usage r.hid_usage ≡ true)
map_key-injective j k r s p q e =
    let (valid, from_j) = usage_of j r p in
    (sym from_j ∙ ap (λ (u : ℕ). key_with u table) e ∙ (usage_of k s q).1, valid)
