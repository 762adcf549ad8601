-- ===== src/Builder/Laws.antt =====
-- A string builder of src/libs/sb.h holds what was appended to it, within its buffer.
use mathlib.Core.List.{append_assoc, append-nil}
use orta_vm.Prelude.{
  ℕ, zero, suc, ◌+◌, ◌-◌, ◌%◌, ◌^◌, ◌≤◌, ◌≡◌, refl, sym, ap, ◌∙◌, arith, true, some, [], ◌∷◌, ◌++◌,
  Str, length, ltb, length-append, Bool-cases, inl, inr,
}
use orta_vm.Result.{Result, ok}
use orta_vm.Builder.{
  StringBuilder, grown, sb_resize, sb_append, append_all, sb_append_str, sb_to_cstr,
}

-- The characters fit in the buffer.
pub record FitsBuffer (sb : StringBuilder) : Type 0 where
  pub within : length sb.data_bytes ≤ sb.capacity_bytes

-- A builder that holds this text within its buffer.
pub record Holds (s : Str) (r : Result StringBuilder) : Type 0 where
  pub builder : StringBuilder
  pub is_result : r ≡ ok builder
  pub holds_text : builder.data_bytes ≡ s
  pub fits_buffer : FitsBuffer builder

grown-le : (n : ℕ) → suc n ≤ grown n
unfolding grown
grown-le zero = omega arith
grown-le (suc n) = omega arith

sb_append-Holds :
    (sb : StringBuilder) (c : ℕ)
    → FitsBuffer sb
    → Holds (sb.data_bytes ++ (c ∷ [])) (sb_append sb c)
unfolding sb_append sb_resize
sb_append-Holds sb c h = elim (Bool-cases (ltb sb.capacity_bytes (length sb.data_bytes + 1))) [
  | inl e ↦
      let room : ltb (length sb.data_bytes) (grown sb.capacity_bytes) ≡ true =
        ground (arith, grown-le sb.capacity_bytes, h.within) in
      record {
        builder = record {
          data_bytes = sb.data_bytes ++ (c ∷ []);
          capacity_bytes = grown sb.capacity_bytes;
        };
        is_result = rw (e, room) refl;
        holds_text = refl;
        fits_buffer = record {
          within =
              omega
                (arith, grown-le sb.capacity_bytes, h.within, length-append sb.data_bytes (c ∷ []));
        };
      }
  | inr e ↦
      let room : ltb (length sb.data_bytes) sb.capacity_bytes ≡ true = ground (arith, e) in
      record {
        builder = record sb { data_bytes = sb.data_bytes ++ (c ∷ []) };
        is_result = rw (e, room) refl;
        holds_text = refl;
        fits_buffer = record { within = ground (arith, e, length-append sb.data_bytes (c ∷ [])) };
      }
]

append_all-Holds :
    (s : Str) (sb : StringBuilder) → FitsBuffer sb → Holds (sb.data_bytes ++ s) (append_all s sb)
unfolding append_all
append_all-Holds [] sb h = record {
  builder = sb;
  is_result = refl;
  holds_text = sym (append-nil sb.data_bytes);
  fits_buffer = h;
}
append_all-Holds (c ∷ s) sb h =
    let one = sb_append-Holds sb c h in
    let all = append_all-Holds s one.builder (one.fits_buffer) in
    record {
      builder = all.builder;
      is_result = rw (one.is_result) (all.is_result);
      holds_text =
          all.holds_text
          ∙ ap (λ t. t ++ s) (one.holds_text)
          ∙ append_assoc sb.data_bytes (c ∷ []) s;
      fits_buffer = all.fits_buffer;
    }

-- Appending a text to a builder whose characters fit in its buffer never writes outside it, answers the length
-- of the text modulo 2 ^ 32, and leaves the old text with the new one behind it, in a buffer in which it fits.
pub sb_append_str-Holds :
    (sb : StringBuilder) (s : Str)
    → FitsBuffer sb
    → (sb' : StringBuilder) × (sb_append_str sb (some s) ≡ ok (length s % 2 ^ 32, sb'))
      × (sb_to_cstr sb' ≡ sb_to_cstr sb ++ s)
      × FitsBuffer sb'
unfolding sb_append_str sb_to_cstr
sb_append_str-Holds sb s h =
    let all = append_all-Holds s sb h in
    let count : length all.builder.data_bytes - length sb.data_bytes ≡ length s =
      omega (arith, ap length (all.holds_text), length-append sb.data_bytes s) in
    (
      all.builder,
      rw (all.is_result) (ap (λ n. ok (n % 2 ^ 32, all.builder)) count),
      all.holds_text,
      all.fits_buffer,
    )
