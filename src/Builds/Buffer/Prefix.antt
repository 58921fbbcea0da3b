-- ===== src/Builds/Buffer/Prefix.antt =====
-- The buffer holds the first bytes of all that was written.
use mathlib.Core.List.{append-nil, append_assoc}
use docker_faas.Base.{
  ℕ, zero, suc, ◌-◌, ◌≤◌, ◌<◌, ◌≡◌, refl, sym, ap, ◌∙◌, List, [], ◌∷◌, ◌++◌, arith, ltb, length,
  take, length-append, length-take, All,
}
use docker_faas.Base.Int.{ℤ}
use docker_faas.Builds.Buffer.{LimitedBuffer, new_limited_buffer, write}

pub write_all : List (List ℕ) → LimitedBuffer → LimitedBuffer
write_all [] l = l
write_all (p ∷ ps) l = write_all ps (write p l).1

pub joined : List (List ℕ) → List ℕ
joined [] = []
joined (p ∷ ps) = p ++ joined ps

take_append_le : (n : ℕ) (xs ys : List ℕ) → n ≤ length xs → take n (xs ++ ys) ≡ take n xs
take_append_le zero xs ys h = refl
take_append_le (suc n) [] ys h = absurd (omega arith)
take_append_le (suc n) (x ∷ xs) ys h = ap (λ zs. x ∷ zs) (take_append_le n xs ys (omega arith))

take_append_ge :
    (n : ℕ) (xs ys : List ℕ) → length xs ≤ n → take n (xs ++ ys) ≡ xs ++ take (n - length xs) ys
take_append_ge n [] ys h = let e : n - 0 ≡ n = omega arith in rw e refl
take_append_ge zero (x ∷ xs) ys h = absurd (omega arith)
take_append_ge (suc n) (x ∷ xs) ys h =
    let e : suc n - suc (length xs) ≡ n - length xs = omega arith in
    rw e (ap (λ zs. x ∷ zs) (take_append_ge n xs ys (omega arith)))

take_of_le : (n : ℕ) (xs : List ℕ) → length xs ≤ n → take n xs ≡ xs
take_of_le zero [] h = refl
take_of_le zero (x ∷ xs) h = absurd (omega arith)
take_of_le (suc n) [] h = refl
take_of_le (suc n) (x ∷ xs) h = ap (λ ys. x ∷ ys) (take_of_le n xs (omega arith))

-- What a buffer holds after the bytes `seen`.
record IsPrefix (seen : List ℕ) (l : LimitedBuffer) : Type 0 where
  bytes : l.buf ≡ take l.limit seen
  flag : l.truncated ≡ ltb l.limit (length seen)

write-IsPrefix :
    (p seen : List ℕ) (l : LimitedBuffer)
    → IsPrefix seen l
    → 0 < length p
    → IsPrefix (seen ++ p) (write p l).1 × ((write p l).1.limit ≡ l.limit)
unfolding write
write-IsPrefix p seen l v h = ground (
  arith,
  length-take {0} l.limit seen,
  take_append_le l.limit seen p,
  take_append_ge l.limit seen p,
  take_of_le l.limit seen,
  take_of_le (l.limit - length seen) p,
  length-append {0} seen p,
)

take-nil : (n : ℕ) → take {A = ℕ} n [] ≡ []
take-nil zero = refl
take-nil (suc n) = refl

new-IsPrefix : (limit : ℤ) → IsPrefix [] (new_limited_buffer limit)
unfolding new_limited_buffer
new-IsPrefix limit = record { bytes = sym (take-nil _); flag = ground arith }

write_all-IsPrefix :
    (ps : List (List ℕ)) (seen : List ℕ) (l : LimitedBuffer)
    → IsPrefix seen l
    → All (λ p. 0 < length p) ps
    → IsPrefix (seen ++ joined ps) (write_all ps l) × ((write_all ps l).limit ≡ l.limit)
unfolding write_all joined
write_all-IsPrefix [] seen l v h = rw append-nil (v, refl)
write_all-IsPrefix (p ∷ ps) seen l v (some_bytes, h) =
    let (v', kept) = write-IsPrefix p seen l v some_bytes in
    let (v'', kept') = write_all-IsPrefix ps (seen ++ p) (write p l).1 v' h in
    (rw (← append_assoc) v'', kept' ∙ kept)

-- After any writes, none of them empty, a new buffer holds the first bytes of all that was written,
-- as many as its limit allows, and says that it was truncated exactly if bytes are missing.
pub write_all_prefix :
    (limit : ℤ) (ps : List (List ℕ))
    → All (λ p. 0 < length p) ps
    → ((write_all ps (new_limited_buffer limit)).buf
        ≡ take (new_limited_buffer limit).limit (joined ps))
      × ((write_all ps (new_limited_buffer limit)).truncated
          ≡ ltb (new_limited_buffer limit).limit (length (joined ps)))
write_all_prefix limit ps h =
    let (v, kept) = write_all-IsPrefix ps [] (new_limited_buffer limit) (new-IsPrefix limit) h in
    (
      v.bytes ∙ ap (λ n. take n (joined ps)) kept,
      v.flag ∙ ap (λ n. ltb n (length (joined ps))) kept,
    )
