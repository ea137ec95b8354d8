-- ===== src/Nvs/Api.antt =====
-- The functions of ESP-IDF's nvs.h that nvs_lib.c calls, over an unknown flash, with what their
-- documentation says of them. The count of open handles is this model's own book-keeping.
use wifi_sniffer.Prelude.{
  ℕ, suc, ◌-◌, ◌≡◌, refl, ◌⊎◌, inl, inr, String, Bool, true, false, ◌&&◌, Option, none, some,
  if◌then◌else◌,
}
use wifi_sniffer.Prelude.Int.{ℤ}
use wifi_sniffer.Prelude.Bytes.{Bytes}
use wifi_sniffer.Prelude.Results.{Err, is_ok, done, Exec}
use text.Mathlib.Text.{◌==◌}

-- `nvs_type_t`
pub data NvsType : Type 0 where
  i8 u8 i16 u16 i32 u32 i64 u64 str blob : NvsType

pub data OpenMode : Type 0 where
  read_only read_write : OpenMode

-- What a key holds.
pub data Value : Type 0 where
  number : NvsType → ℤ → Value
  chars : Bytes → Value
  octets : Bytes → Value

-- A value that comes back through a pointer, which is written only on ESP_OK.
pub data Got (A : Type 0) : Type 0 where
  got : A → Got A
  failed : Err → Got A

pub record NvsApi : Type 1 where
  pub Handle : Type 0
  pub Flash : Type 0
  pub open_namespace : String → OpenMode → Flash → Got (Handle × Flash)
  pub set_value : Handle → String → Value → Flash → Err × Flash
  pub get_num : Handle → String → NvsType → Flash → Got ℤ
  pub get_text : Handle → String → Flash → Got Bytes
  pub get_array : Handle → String → Flash → Got Bytes
  pub erase_key : Handle → String → Flash → Err × Flash
  pub commit : Handle → Flash → Err × Flash
  pub flash_init : Flash → Err × Flash
  pub flash_erase : Flash → Err × Flash

-- The flash and the number of handles that are open.
pub record Store (N : NvsApi) : Type 0 where
  pub flash : N.Flash
  pub open_handles : ℕ

module _ (N : NvsApi) where
  -- nvs_open
  unfoldable pub nvs_open : String → OpenMode → Exec (Store N) (Got N.Handle)
  nvs_open ns mode s = elim (N.open_namespace ns mode s.flash) [
    | failed e ↦ done (failed e) s
    | got (h, f) ↦ done (got h) (record { flash = f; open_handles = suc s.open_handles })
  ]

  -- nvs_close
  unfoldable pub nvs_close : N.Handle → Exec (Store N) (Unit {0})
  nvs_close h s = done tt (record { flash = s.flash; open_handles = s.open_handles - 1 })

  -- nvs_set_i8 to nvs_set_u64, nvs_set_str, nvs_set_blob
  unfoldable pub nvs_set : N.Handle → String → Value → Exec (Store N) Err
  nvs_set h key v s =
      let (e, f) = N.set_value h key v s.flash in
      done e (record { flash = f; open_handles = s.open_handles })

  unfoldable pub nvs_commit : N.Handle → Exec (Store N) Err
  nvs_commit h s =
      let (e, f) = N.commit h s.flash in
      done e (record { flash = f; open_handles = s.open_handles })

  unfoldable pub nvs_erase_key : N.Handle → String → Exec (Store N) Err
  nvs_erase_key h key s =
      let (e, f) = N.erase_key h key s.flash in
      done e (record { flash = f; open_handles = s.open_handles })

abbrev pub NumAnswer : Option Value → NvsType → Got ℤ → Type 0
NumAnswer none t g = g ≡ failed Err.nvs_not_found
NumAnswer (some (number t' z)) t g = t ≡ t' → g ≡ got z
NumAnswer (some _) t g = Unit

abbrev pub TextAnswer : Option Value → Got Bytes → Type 0
TextAnswer none g = g ≡ failed Err.nvs_not_found
TextAnswer (some (chars b)) g = g ≡ got b
TextAnswer (some _) g = Unit

abbrev pub ArrayAnswer : Option Value → Got Bytes → Type 0
ArrayAnswer none g = g ≡ failed Err.nvs_not_found
ArrayAnswer (some (octets b)) g = g ≡ got b
ArrayAnswer (some _) g = Unit

-- What ESP-IDF documents: a flash holds values under a namespace and a key.
pub record IsNvs (N : NvsApi) : Type 0 where
  pub namespace_of : N.Handle → String
  pub has_namespace : N.Flash → String → Bool
  pub lookup : N.Flash → String → String → Option Value
  -- A handle is for the namespace that was opened; opening loses nothing, and to open for writing
  -- creates the namespace.
  pub open_namespace_of :
      (ns : String) (m : OpenMode) (f : N.Flash) (h : N.Handle) (f' : N.Flash)
      → N.open_namespace ns m f ≡ got (h, f')
      → namespace_of h ≡ ns
  pub open_lookup :
      (ns : String) (m : OpenMode) (f : N.Flash) (h : N.Handle) (f' : N.Flash) (n k : String)
      → N.open_namespace ns m f ≡ got (h, f')
      → lookup f' n k ≡ lookup f n k
  pub open_creates :
      (ns : String) (f : N.Flash) (h : N.Handle) (f' : N.Flash)
      → N.open_namespace ns read_write f ≡ got (h, f')
      → has_namespace f' ns ≡ true
  -- A namespace that exists can be opened; one that does not is not found.
  pub open_existing :
      (ns : String) (m : OpenMode) (f : N.Flash)
      → has_namespace f ns ≡ true
      → (h : N.Handle) × (f' : N.Flash) × (N.open_namespace ns m f ≡ got (h, f'))
  pub open_namespaces :
      (ns : String) (m : OpenMode) (f : N.Flash) (h : N.Handle) (f' : N.Flash) (n : String)
      → N.open_namespace ns m f ≡ got (h, f')
      → has_namespace f n ≡ true
      → has_namespace f' n ≡ true
  pub open_missing :
      (ns : String) (f : N.Flash)
      → has_namespace f ns ≡ false
      → N.open_namespace ns read_only f ≡ failed Err.nvs_not_found
  pub open_failed :
      (ns : String) (m : OpenMode) (f : N.Flash) (e : Err)
      → N.open_namespace ns m f ≡ failed e
      → is_ok e ≡ false
  -- A write that succeeds sets its key and no other. One that fails sets nothing.
  pub set_lookup :
      (h : N.Handle) (k : String) (v : Value) (f : N.Flash) (n j : String)
      → is_ok (N.set_value h k v f).0 ≡ true
      → lookup (N.set_value h k v f).1 n j
        ≡ (if (n == namespace_of h) && (j == k) then some v else lookup f n j)
  pub set_failed :
      (h : N.Handle) (k : String) (v : Value) (f : N.Flash) (n j : String)
      → is_ok (N.set_value h k v f).0 ≡ false
      → lookup (N.set_value h k v f).1 n j ≡ lookup f n j
  pub set_namespace :
      (h : N.Handle) (k : String) (v : Value) (f : N.Flash) (n : String)
      → has_namespace (N.set_value h k v f).1 n ≡ has_namespace f n
  pub commit_lookup :
      (h : N.Handle) (f : N.Flash) (n k : String) → lookup (N.commit h f).1 n k ≡ lookup f n k
  pub commit_namespace :
      (h : N.Handle) (f : N.Flash) (n : String)
      → has_namespace (N.commit h f).1 n ≡ has_namespace f n
  -- The readers answer from what the key holds.
  pub get_num_answer :
      (h : N.Handle) (k : String) (t : NvsType) (f : N.Flash)
      → NumAnswer (lookup f (namespace_of h) k) t (N.get_num h k t f)
  pub get_text_answer :
      (h : N.Handle) (k : String) (f : N.Flash)
      → TextAnswer (lookup f (namespace_of h) k) (N.get_text h k f)
  pub get_array_answer :
      (h : N.Handle) (k : String) (f : N.Flash)
      → ArrayAnswer (lookup f (namespace_of h) k) (N.get_array h k f)

pub Got-cases : {A : Type 0} (g : Got A) → ((a : A) × (g ≡ got a)) ⊎ ((e : Err) × (g ≡ failed e))
Got-cases (got a) = inl (a, refl)
Got-cases (failed e) = inr (e, refl)
