-- ===== src/Nvs/Memory.antt =====
-- A flash in memory, which never fails and behaves as the documentation of nvs.h says: what is proved
-- for every such flash holds of one.
use text.Mathlib.Text.{◌==◌}
use text.Mathlib.TextPositions.{eq_refl}
use wifi_sniffer.Prelude.{
  ◌≡◌, refl, ap, subst, ◌⊎◌, inl, inr, String, Bool, true, false, ◌&&◌, ◌||◌, Option, none, some,
  arith, if◌then◌else◌,
}
use wifi_sniffer.Prelude.Int.{ℤ}
use wifi_sniffer.Prelude.Bytes.{Bytes}
use wifi_sniffer.Prelude.Results.{Err, is_ok}
use wifi_sniffer.Nvs.Api.{
  NvsType, OpenMode, Value, number, chars, octets, Got, got, failed, NvsApi, Store, IsNvs,
  NumAnswer, TextAnswer, ArrayAnswer,
}

pub record Memory : Type 0 where
  pub exists : String → Bool
  pub value_at : String → String → Option Value

abbrev create : String → Memory → Memory
create ns f = record f { exists = λ n. (n == ns) || f.exists n }

abbrev open_memory : String → OpenMode → Memory → Got (String × Memory)
open_memory ns OpenMode.read_only f = if f.exists ns then got (ns, f) else failed Err.nvs_not_found
open_memory ns OpenMode.read_write f = got (ns, create ns f)

abbrev put : String → String → Option Value → Memory → Memory
put ns key v f = record f {
  value_at = λ n k. if (n == ns) && (k == key) then v else f.value_at n k;
}

abbrev num_of : Option Value → Got ℤ
num_of (some (number t z)) = got z
num_of (some _) = failed Err.nvs_type_mismatch
num_of none = failed Err.nvs_not_found

abbrev text_of : Option Value → Got Bytes
text_of (some (chars b)) = got b
text_of (some _) = failed Err.nvs_type_mismatch
text_of none = failed Err.nvs_not_found

abbrev array_of : Option Value → Got Bytes
array_of (some (octets b)) = got b
array_of (some _) = failed Err.nvs_type_mismatch
array_of none = failed Err.nvs_not_found

abbrev pub memory_nvs : NvsApi
memory_nvs = record {
  Handle = String;
  Flash = Memory;
  open_namespace = open_memory;
  set_value = λ h k v f. (Err.esp_ok, put h k (some v) f);
  get_num = λ h k t f. num_of (f.value_at h k);
  get_text = λ h k f. text_of (f.value_at h k);
  get_array = λ h k f. array_of (f.value_at h k);
  erase_key = λ h k f. (Err.esp_ok, put h k none f);
  commit = λ h f. (Err.esp_ok, f);
  flash_init = λ f. (Err.esp_ok, f);
  flash_erase = λ f. (Err.esp_ok, record { exists = λ _. false; value_at = λ _ _. none });
}

-- A flash that was never written.
abbrev pub empty_store : Store memory_nvs
empty_store = record {
  flash = record { exists = λ _. false; value_at = λ _ _. none };
  open_handles = 0;
}

num_of_answer : (v : Option Value) (t : NvsType) → NumAnswer v t (num_of v)
num_of_answer none t = refl
num_of_answer (some (number t' z)) t = λ _. refl
num_of_answer (some (chars b)) t = tt
num_of_answer (some (octets b)) t = tt

text_of_answer : (v : Option Value) → TextAnswer v (text_of v)
text_of_answer none = refl
text_of_answer (some (number t' z)) = tt
text_of_answer (some (chars b)) = refl
text_of_answer (some (octets b)) = tt

array_of_answer : (v : Option Value) → ArrayAnswer v (array_of v)
array_of_answer none = refl
array_of_answer (some (number t' z)) = tt
array_of_answer (some (chars b)) = tt
array_of_answer (some (octets b)) = refl

-- What an open namespace gives, whichever way it was opened.
open_inv :
    (ns : String) (m : OpenMode) (f : Memory) (h : String) (f' : Memory)
    → open_memory ns m f ≡ got (h, f')
    → (h ≡ ns) × (f' ≡ f ⊎ f' ≡ create ns f)
open_inv ns OpenMode.read_only f h f' e = ground arith
open_inv ns OpenMode.read_write f h f' e = ground arith

created :
    (ns : String) (f : Memory) (h : String) (f' : Memory)
    → open_memory ns OpenMode.read_write f ≡ got (h, f')
    → f'.exists ns ≡ true
created ns f h f' e =
    subst (λ (g : Memory). g.exists ns ≡ true) made (ap (λ b. b || f.exists ns) (eq_refl ns))
  where
    made : create ns f ≡ f'
    made = ground arith

existing :
    (ns : String) (m : OpenMode) (f : Memory)
    → f.exists ns ≡ true
    → (h : String) × (f' : Memory) × (open_memory ns m f ≡ got (h, f'))
existing ns OpenMode.read_only f there = (ns, f, rw there refl)
existing ns OpenMode.read_write f there = (ns, create ns f, refl)

no_failure :
    (ns : String) (m : OpenMode) (f : Memory) (e : Err)
    → open_memory ns m f ≡ failed e
    → is_ok e ≡ false
no_failure ns OpenMode.read_only f e er = ground arith
no_failure ns OpenMode.read_write f e er = ground arith

pub memory_nvs-IsNvs : IsNvs memory_nvs
memory_nvs-IsNvs = record {
  namespace_of = λ h. h;
  has_namespace = λ f n. f.exists n;
  lookup = λ f n k. f.value_at n k;
  open_namespace_of = λ ns m f h f' e. (open_inv ns m f h f' e).0;
  open_lookup = λ ns m f h f' n k e. elim (open_inv ns m f h f' e).1 [
    | inl same ↦ ap (λ g. g.value_at n k) same
    | inr made ↦ ap (λ g. g.value_at n k) made
  ];
  open_creates = λ ns f h f' e. created ns f h f' e;
  open_existing = λ ns m f there. existing ns m f there;
  open_namespaces = λ ns m f h f' n e there. elim (open_inv ns m f h f' e).1 [
    | inl same ↦ rw same there
    | inr made ↦ rw made (ground (arith, there))
  ];
  open_missing = λ ns f gone. rw gone refl;
  open_failed = λ ns m f e er. no_failure ns m f e er;
  set_lookup = λ h k v f n j ok. refl;
  set_failed = λ h k v f n j no. ground (arith, no);
  set_namespace = λ h k v f n. refl;
  commit_lookup = λ h f n k. refl;
  commit_namespace = λ h f n. refl;
  get_num_answer = λ h k t f. num_of_answer (f.value_at h k) t;
  get_text_answer = λ h k f. text_of_answer (f.value_at h k);
  get_array_answer = λ h k f. array_of_answer (f.value_at h k);
}
