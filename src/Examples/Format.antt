-- ===== src/Examples/Format.antt =====
-- A concrete bstrlib.
use libm2handler.Base.{
  ◌+◌, Bool, true, false, leb, ◌&&◌, drop, ℕ, ◌≡◌, ◌↔◌, refl, ap, arith, ◌==◌, [], ◌∷◌, ◌++◌,
  Option, none, some, ℤ, pos, negsuc, take, Bytes, if◌then◌else◌,
}
use libm2handler.Extern.{Bstring, Bstrlib, IsLawful, c_string}
use libm2handler.Examples.Strings.{
  binchr, bmidstr, binchr-found_lem, binchr-missing_lem, bmidstr-inside_lem, bmidstr_cut_lem,
  same_bytes, same_bytes_iff,
}
use libm2handler.Examples.Printing.{
  plain, print, print-response_header, take_whole, print_number, print_one,
}

abbrev text_of : Option Bytes → Bstring
text_of none = none
text_of (some s) = some (c_string s)

abbrev block_of : Bytes → ℤ → Bstring
block_of b (negsuc n) = none
block_of b (pos n) = some (take n b)

abbrev joined : Bstring → Bstring → ℤ × Bstring
joined (some a) (some b) = (pos 0, some (a ++ b))
joined a b = (negsuc 0, a)

abbrev compared : Bstring → Bstring → ℤ
compared (some a) (some b) = if same_bytes (c_string a) (c_string b) then pos 0 else pos 1
compared a b = negsuc 32767

abbrev appended : Bstring → Bytes → ℤ → ℤ × Bstring
appended a blk n = joined a (block_of blk n)

-- Whether a string starts another, without regard to case, and the first place where it does.
abbrev lower : ℕ → ℕ
lower c = if leb b'A' c && leb c b'Z' then c + 32 else c

abbrev starts : Bytes → Bytes → Bool
starts [] ys = true
starts (x ∷ xs) [] = false
starts (x ∷ xs) (y ∷ ys) = lower x == lower y && starts xs ys

abbrev first_place : ℕ → Bytes → Bytes → ℤ
first_place k xs [] = if starts xs [] then pos k else negsuc 0
first_place k xs (y ∷ ys) =
    let later = first_place (k + 1) xs ys in if starts xs (y ∷ ys) then pos k else later

abbrev found_from : Bstring → ℤ → Bstring → ℤ
found_from (some b) (pos k) (some w) = first_place k w (drop k b)
found_from b k w = negsuc 0

-- `base64` is the identity here: the properties fix its result by a hypothesis.
abbrev pub strings : Bstrlib
strings = record {
  binchr = binchr;
  bmidstr = bmidstr;
  bfromcstr = text_of;
  blk2bstr = block_of;
  bstrcpy = λ b. b;
  bconcat = joined;
  bcatcstr = λ a s. joined a (some (c_string s));
  bstrcmp = compared;
  bformat = λ format args. some (print plain format args);
  base64 = λ b. b;
  bcatblk = appended;
  bfromcstralloc = λ n s. text_of s;
  binstrcaseless = found_from;
}

compared_iff :
    (a b : Bytes) → c_string a ≡ a → c_string b ≡ b → (compared (some a) (some b) ≡ pos 0) ↔ (a ≡ b)
compared_iff a b ha hb = rw (ha, hb) (ground (arith, same_bytes_iff a b))

compared-none : (b : Bstring) → compared none b ≡ negsuc 32767
compared-none none = refl
compared-none (some b) = refl

pub strings-IsLawful : IsLawful strings
strings-IsLawful = record {
  binchr-found = binchr-found_lem;
  binchr-missing = binchr-missing_lem;
  bmidstr-inside = bmidstr-inside_lem;
  bmidstr_cut = bmidstr_cut_lem;
  bmidstr_negative = λ b k n. refl;
  bfromcstr_some = λ s. refl;
  bfromcstr_none = refl;
  blk2bstr_some = λ b. rw (take_whole b);
  bstrcpy_some = λ b. refl;
  bconcat_some = λ a b. refl;
  bconcat_none = λ a. refl;
  bcatblk_some = λ a blk. rw (take_whole blk);
  bfromcstralloc_some = λ n s. refl;
  bformat_number = λ front mid s n f m h. ap some (print_number front mid s n f m h);
  bcatcstr_some = λ a s h. rw h;
  bstrcmp_iff = compared_iff;
  bstrcmp_none = compared-none;
  bformat-response_header = λ s n i h. ap some (print-response_header s n i h);
  bformat_one = λ front s back f b h. ap some (print_one front s back f b h);
}
