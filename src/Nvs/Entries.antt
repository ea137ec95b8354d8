-- ===== src/Nvs/Entries.antt =====
-- Esp32Sniffer/components/nvs_lib/nvs_lib.c: `nvs_list_values`, over the entries that ESP-IDF's iterator
-- goes through. What it tells of an entry is only kept, and nothing reads it.
use wifi_sniffer.Prelude.{
  ℕ, zero, suc, ◌<◌, ◌≡◌, refl, ap, String, Option, none, some, arith, if◌then◌else◌,
}
use wifi_sniffer.Prelude.Results.{Err, is_not_found}
use wifi_sniffer.Nvs.Api.{NvsApi, NvsType, Got, got, failed}

-- nvs_entry_find and nvs_entry_next, which releases the iterator where it fails.
pub record EntryApi (N : NvsApi) : Type 1 where
  pub Iterator : Type 0
  pub entry_find : String → String → NvsType → N.Flash → Got Iterator
  pub entry_next : Iterator → Got Iterator

module _ {N : NvsApi} (E : EntryApi N) where
  -- The code that ends the loop, if the rounds do not run out first.
  unfoldable pub list_entries : ℕ → E.Iterator → Option Err
  list_entries zero it = none
  list_entries (suc n) it = elim (E.entry_next it) as (λ _. Option Err) [
    | got it' ↦ list_entries n it'
    | failed e ↦ some e
  ]

  abbrev listed : Option Err → Option ℕ
  listed none = none
  listed (some e) = some (if is_not_found e then 0 else 1)

  unfoldable pub nvs_list_values : ℕ → String → String → NvsType → N.Flash → Option ℕ
  unfolding list_entries
  nvs_list_values fuel partition ns type f =
      elim (E.entry_find partition ns type f) as (λ _. Option ℕ) [
        | got it ↦ listed (list_entries fuel it)
        | failed e ↦ some 1
      ]

  -- The iterator goes on to entry after entry, and then the code tells why there is none.
  pub data EndsWith (e : Err) : E.Iterator → Type 0 where
    at_end : {it : E.Iterator} → E.entry_next it ≡ failed e → EndsWith e it
    after : {it it' : E.Iterator} → E.entry_next it ≡ got it' → EndsWith e it' → EndsWith e it

  module _ (remaining : E.Iterator → ℕ)
      (fewer : (it it' : E.Iterator)
        → E.entry_next it ≡ got it'
        → remaining it' < remaining it) where
    list_entries_ends :
        (n : ℕ) (it : E.Iterator)
        → remaining it < n
        → (e : Err) × (list_entries n it ≡ some e) × EndsWith e it
    unfolding list_entries
    list_entries_ends zero it h = absurd (omega arith)
    list_entries_ends (suc n) it h =
        go (E.entry_next it) refl (λ it' p. list_entries_ends n it' (omega (arith, fewer it it' p)))
      where
        go :
            (g : Got E.Iterator)
            → E.entry_next it ≡ g
            → ((it' : E.Iterator)
                → E.entry_next it ≡ got it'
                → (e : Err) × (list_entries n it' ≡ some e) × EndsWith e it')
            → (e : Err) × ((elim g as (λ _. Option Err) [
              | got it' ↦ list_entries n it'
              | failed e ↦ some e
            ])
                ≡ some e)
              × EndsWith e it
        go (got it') p rest = let (e, q, r) = rest it' p in (e, q, after p r)
        go (failed e) p rest = (e, refl, at_end p)

    -- Where each step leaves fewer entries to go through, with more rounds than entries the loop ends: it
    -- ends with the code that the iterator ends with, and 0 is returned if that says that no entry is
    -- left, else 1.
    pub nvs_list_values_ends :
        (fuel : ℕ) (partition ns : String) (type : NvsType) (f : N.Flash) (it : E.Iterator)
        → E.entry_find partition ns type f ≡ got it
        → remaining it < fuel
        → (e : Err) × (nvs_list_values fuel partition ns type f
            ≡ some (if is_not_found e then 0 else 1))
          × EndsWith e it
    unfolding nvs_list_values
    nvs_list_values_ends fuel partition ns type f it found h =
        let (e, q, r) = list_entries_ends fuel it h in
        (e, rw (nvs_list_values, found) (ap listed q), r)
