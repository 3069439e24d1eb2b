-- ===== src/Json/Sound.antt =====
-- The texts that the reader of JSON values takes are those that are written for its values.
use network_analyser_using_r.Base.{
  ℕ, zero, suc, ◌≡◌, refl, ap, ◌∙◌, Bool, true, false, Bytes, ◌∷◌, ◌++◌, some,
}
use network_analyser_using_r.Json.Value.{
  Json, Items, Fields, quoted, comma, render, render_items, render_fields, read_value, read_items,
  read_fields,
}
use network_analyser_using_r.Json.RoundTrip.{IsPlainJson, ArePlainItems, ArePlainFields}
use network_analyser_using_r.Json.Inversion.{
  reads_string, reads_array, reads_object, reads_no_item, reads_item, reads_no_field, reads_field,
  read_quoted_inv, read_value_inv, read_items_inv, read_fields_inv,
}
use mathlib.Core.List.{append_assoc}

mutual
  unfolding render IsPlainJson read_value

  pub read_value_sound :
      (fuel : ℕ) (cs : Bytes) (v : Json) (rest : Bytes)
      → read_value fuel cs ≡ some (v, rest)
      → (cs ≡ render v ++ rest) × IsPlainJson v
  read_value_sound zero cs v rest h = absurd (cc)
  read_value_sound (suc fuel) cs v rest h = elim (read_value_inv fuel cs v rest h) [
    | reads_string t e same ↦ rw same (read_quoted_inv cs t rest e)
    | reads_array vs cs1 e f same ↦
        let (split, plain) = read_items_sound fuel true cs1 vs rest f in
        rw same (e ∙ ap (◌∷◌ b'[') split, plain)
    | reads_object fs cs1 e f same ↦
        let (split, plain) = read_fields_sound fuel true cs1 fs rest f in
        rw same (e ∙ ap (◌∷◌ b'{') split, plain)
  ]

  read_items_sound :
      (fuel : ℕ) (first : Bool) (cs : Bytes) (vs : Items) (rest : Bytes)
      → read_items fuel first cs ≡ some (vs, rest)
      → (cs ≡ render_items first vs ++ rest) × ArePlainItems vs
  read_items_sound zero first cs vs rest h = absurd (cc)
  read_items_sound (suc fuel) first cs vs rest h = elim (read_items_inv fuel first cs vs rest h) [
    | reads_no_item e same ↦ rw same (e, tt)
    | reads_item v ws cs1 cs2 e f g same ↦
        let (split, plain) = read_value_sound fuel cs1 v cs2 f in
        let (split2, plain2) = read_items_sound fuel false cs2 ws rest g in
        rw same (
          e
              ∙ ap (λ t. comma first ++ t) (split ∙ ap (λ t. render v ++ t) split2)
              ∙ simp append_assoc refl,
          (plain, plain2),
        )
  ]

  read_fields_sound :
      (fuel : ℕ) (first : Bool) (cs : Bytes) (fs : Fields) (rest : Bytes)
      → read_fields fuel first cs ≡ some (fs, rest)
      → (cs ≡ render_fields first fs ++ rest) × ArePlainFields fs
  read_fields_sound zero first cs fs rest h = absurd (cc)
  read_fields_sound (suc fuel) first cs fs rest h = elim (read_fields_inv fuel first cs fs rest h) [
    | reads_no_field e same ↦ rw same (e, tt)
    | reads_field k v gs cs1 cs2 cs3 e f g i same ↦
        let (named, plain_k) = read_quoted_inv cs1 k (b':' ∷ cs2) f in
        let (split, plain) = read_value_sound fuel cs2 v cs3 g in
        let (split2, plain2) = read_fields_sound fuel false cs3 gs rest i in
        rw same (
          e
              ∙ ap (λ t. comma first ++ t)
                  (named
                    ∙ ap (λ t. quoted k ++ (b':' ∷ t)) (split ∙ ap (λ t. render v ++ t) split2))
              ∙ simp append_assoc refl,
          (plain_k, plain, plain2),
        )
  ]
