-- ===== src/Targets/Kernels/Order.antt =====
-- That the order of kernels' versions is one: what is not below what is not below.
use lustre_test_vms.Base.{
  ◌≡◌, refl, ap, inl, inr, true, false, List, [], ◌∷◌, arith, nat_eq, Bool-cases,
}
use lustre_test_vms.Qemu.{same_codes}
use lustre_test_vms.Qemu.Identity.{same_codes_sound}
use lustre_test_vms.Targets.Kernels.{
  Name, Chunk, number, text, text_ltb, chunk_ltb, same_chunk, key_ltb, is_older,
}

text_ltb-asym : (a b : Name) → text_ltb a b ≡ true → text_ltb b a ≡ false
unfolding text_ltb
text_ltb-asym [] [] h = refl
text_ltb-asym [] (b ∷ ys) h = refl
text_ltb-asym (a ∷ xs) [] h = absurd (ground arith)
text_ltb-asym (a ∷ xs) (b ∷ ys) h = ground (arith, text_ltb-asym xs ys)

text_ltb-cotrans :
    (a b c : Name) → text_ltb a b ≡ false → text_ltb b c ≡ false → text_ltb a c ≡ false
unfolding text_ltb
text_ltb-cotrans [] [] c h k = k
text_ltb-cotrans [] (b ∷ ys) c h k = absurd (ground arith)
text_ltb-cotrans (a ∷ xs) b [] h k = refl
text_ltb-cotrans (a ∷ xs) [] (c ∷ zs) h k = absurd (ground arith)
text_ltb-cotrans (a ∷ xs) (b ∷ ys) (c ∷ zs) h k = ground (arith, text_ltb-cotrans xs ys zs)

same_codes-sym : (a b : Name) → same_codes a b ≡ same_codes b a
same_codes-sym [] [] = refl
same_codes-sym [] (b ∷ ys) = refl
same_codes-sym (a ∷ xs) [] = refl
same_codes-sym (a ∷ xs) (b ∷ ys) = ground (arith, same_codes-sym xs ys)

same_chunk-sym : (a b : Chunk) → same_chunk a b ≡ same_chunk b a
unfolding same_chunk
same_chunk-sym (number a) (number b) = ground arith
same_chunk-sym (number a) (text b) = refl
same_chunk-sym (text a) (number b) = refl
same_chunk-sym (text a) (text b) = same_codes-sym a b

same_chunk_sound : (a b : Chunk) → same_chunk a b ≡ true → a ≡ b
unfolding same_chunk
same_chunk_sound (number a) (number b) h = ground arith
same_chunk_sound (number a) (text b) h = absurd (ground arith)
same_chunk_sound (text a) (number b) h = absurd (ground arith)
same_chunk_sound (text a) (text b) h = ap text (same_codes_sound a b h)

chunk_ltb-asym : (a b : Chunk) → chunk_ltb a b ≡ true → chunk_ltb b a ≡ false
unfolding chunk_ltb
chunk_ltb-asym (number a) (number b) h = ground arith
chunk_ltb-asym (number a) (text b) h = refl
chunk_ltb-asym (text a) (number b) h = absurd (ground arith)
chunk_ltb-asym (text a) (text b) h = text_ltb-asym a b h

chunk_ltb-cotrans :
    (a b c : Chunk) → chunk_ltb a b ≡ false → chunk_ltb b c ≡ false → chunk_ltb a c ≡ false
unfolding chunk_ltb
chunk_ltb-cotrans (number a) (number b) (number c) h k = ground arith
chunk_ltb-cotrans (number a) (number b) (text c) h k = absurd (ground arith)
chunk_ltb-cotrans (number a) (text b) c h k = absurd (ground arith)
chunk_ltb-cotrans (text a) b (number c) h k = refl
chunk_ltb-cotrans (text a) (number b) (text c) h k = absurd (ground arith)
chunk_ltb-cotrans (text a) (text b) (text c) h k = text_ltb-cotrans a b c h k

text_ltb-antisym :
    (a b : Name) → text_ltb a b ≡ false → text_ltb b a ≡ false → same_codes a b ≡ true
unfolding text_ltb
text_ltb-antisym [] [] h k = refl
text_ltb-antisym [] (b ∷ ys) h k = absurd (ground arith)
text_ltb-antisym (a ∷ xs) [] h k = absurd (ground arith)
text_ltb-antisym (a ∷ xs) (b ∷ ys) h k = ground (arith, text_ltb-antisym xs ys)

-- Chunks none of which is below the other are the same.
chunk_ltb-antisym :
    (a b : Chunk) → chunk_ltb a b ≡ false → chunk_ltb b a ≡ false → same_chunk a b ≡ true
unfolding chunk_ltb same_chunk
chunk_ltb-antisym (number a) (number b) h k = ground arith
chunk_ltb-antisym (number a) (text b) h k = absurd (ground arith)
chunk_ltb-antisym (text a) (number b) h k = absurd (ground arith)
chunk_ltb-antisym (text a) (text b) h k = text_ltb-antisym a b h k

key_ltb-asym : (a b : List Chunk) → key_ltb a b ≡ true → key_ltb b a ≡ false
unfolding key_ltb
key_ltb-asym [] [] h = refl
key_ltb-asym [] (b ∷ ys) h = refl
key_ltb-asym (a ∷ xs) [] h = absurd (ground arith)
key_ltb-asym (a ∷ xs) (b ∷ ys) h =
    ground (arith, key_ltb-asym xs ys, same_chunk-sym a b, chunk_ltb-asym a b)

key_ltb-cotrans :
    (a b c : List Chunk) → key_ltb a b ≡ false → key_ltb b c ≡ false → key_ltb a c ≡ false
unfolding key_ltb
key_ltb-cotrans [] [] c h k = k
key_ltb-cotrans [] (b ∷ ys) c h k = absurd (ground arith)
key_ltb-cotrans (a ∷ xs) b [] h k = refl
key_ltb-cotrans (a ∷ xs) [] (c ∷ zs) h k = absurd (ground arith)
key_ltb-cotrans (a ∷ xs) (b ∷ ys) (c ∷ zs) h k = elim (Bool-cases (same_chunk a b)) [
  | inl e ↦ ground (arith, same_chunk_sound a b e, key_ltb-cotrans xs ys zs)
  | inr e ↦ elim (Bool-cases (same_chunk b c)) [
    | inl f ↦ ground (arith, same_chunk_sound b c f, key_ltb-cotrans xs ys zs)
    | inr f ↦ elim (Bool-cases (same_chunk a c)) [
      | inl g ↦
          let same = same_chunk_sound a c g in
          absurd (
            ground (
              arith,
              same,
              h,
              k,
              e,
              f,
              chunk_ltb-antisym a b,
              chunk_ltb-antisym b c,
              same_chunk-sym a b,
            ))
      | inr g ↦ ground (arith, chunk_ltb-cotrans a b c)
    ]
  ]
]

pub is_older-asym : (a b : Name) → is_older a b ≡ true → is_older b a ≡ false
unfolding is_older
is_older-asym a b h = key_ltb-asym _ _ h

pub is_older-cotrans :
    (a b c : Name) → is_older a b ≡ false → is_older b c ≡ false → is_older a c ≡ false
unfolding is_older
is_older-cotrans a b c h k = key_ltb-cotrans _ _ _ h k
