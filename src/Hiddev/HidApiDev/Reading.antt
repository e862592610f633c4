-- ===== src/Hiddev/HidApiDev/Reading.antt =====
-- What `Read` of src/hiddev/hidapidev.cpp puts together.
use steam_deck_gyro_dsu_exte.Base.{
  ℕ, zero, suc, ◌+◌, ◌-◌, ltb, ◌<◌, ◌≡◌, refl, sym, ap, ap₂, ◌∙◌, arith, true, false, List, [], ◌∷◌,
  ◌++◌, append-nil, append_assoc, some, length, length-append, length-drop, take, drop,
}
use steam_deck_gyro_dsu_exte.Base.Int.{pos}
use steam_deck_gyro_dsu_exte.Hiddev.HidApiDev.{HidApiDev, Answer, got, read, read_loop, overwrite}

-- The bytes of some answers, one after the other.
unfoldable pub bytes_of : List (ℕ × List ℕ) → List ℕ
bytes_of [] = []
bytes_of (c ∷ cs) = c.0 ∷ c.1 ++ bytes_of cs

-- Answers that bring one byte or more each.
unfoldable pub answers_of : List (ℕ × List ℕ) → List Answer
answers_of [] = []
answers_of (c ∷ cs) = got (c.0 ∷ c.1) ∷ answers_of cs

take-append : {A : Type 0} (xs ys : List A) (n : ℕ) → n ≡ length xs → take n (xs ++ ys) ≡ xs
take-append [] ys zero e = refl
take-append [] ys (suc n) e = absurd (omega arith)
take-append (x ∷ xs) ys zero e = absurd (omega arith)
take-append (x ∷ xs) ys (suc n) e = ap (λ zs. x ∷ zs) (take-append xs ys n (omega arith))

drop-append :
    {A : Type 0} (xs ys : List A) (n k : ℕ) → n ≡ length xs + k → drop n (xs ++ ys) ≡ drop k ys
drop-append [] ys n k e = ap (λ n. drop n ys) {y = k} (omega arith)
drop-append (x ∷ xs) ys zero k e = absurd (omega arith)
drop-append (x ∷ xs) ys (suc n) k e = drop-append xs ys n k (omega arith)

overwrite_front :
    (front old bytes : List ℕ) (at : ℕ)
    → at ≡ length front
    → overwrite (front ++ old) at bytes ≡ front ++ bytes ++ drop (length bytes) old
unfolding overwrite
overwrite_front front old bytes at e = rw (
  take-append front old at e,
  drop-append front old (at + length bytes) (length bytes) (omega arith),
)

-- A read that is not the last one, with `front` read before.
read_loop_more :
    (c : ℕ × List ℕ) (front old : List ℕ) (rest : List Answer) (n : ℕ)
    → n ≡ length front
    → suc (length c.1) < length old
    → read_loop (got (c.0 ∷ c.1) ∷ rest) n (front ++ old)
      ≡ read_loop rest
          (n + suc (length c.1))
          ((front ++ (c.0 ∷ c.1)) ++ drop (suc (length c.1)) old)
unfolding read_loop
read_loop_more c front old rest n e short =
    let test : ltb (n + suc (length c.1)) (length (front ++ old)) ≡ true =
      ground (arith, length-append front old) in
    rw test (ap (read_loop rest (n + suc (length c.1))) (overwrite_front front old (c.0 ∷ c.1) n e))

drop_all : (xs : List ℕ) (n : ℕ) → n ≡ length xs → drop n xs ≡ []
drop_all [] zero e = refl
drop_all [] (suc n) e = refl
drop_all (x ∷ xs) zero e = absurd (omega arith)
drop_all (x ∷ xs) (suc n) e = drop_all xs n (omega arith)

-- The last one.
read_loop_last :
    (c : ℕ × List ℕ) (front old : List ℕ) (rest : List Answer) (n : ℕ)
    → n ≡ length front
    → suc (length c.1) ≡ length old
    → read_loop (got (c.0 ∷ c.1) ∷ rest) n (front ++ old)
      ≡ some (pos (n + length old), front ++ (c.0 ∷ c.1), rest)
unfolding read_loop
read_loop_last c front old rest n e whole =
    let test : ltb (n + suc (length c.1)) (length (front ++ old)) ≡ false =
      ground (arith, length-append front old) in
    let filled : overwrite (front ++ old) n (c.0 ∷ c.1) ≡ front ++ (c.0 ∷ c.1) =
      overwrite_front front old (c.0 ∷ c.1) n e
      ∙ ap (λ xs. (front ++ (c.0 ∷ c.1)) ++ xs) (drop_all old (suc (length c.1)) whole)
      ∙ append-nil (front ++ (c.0 ∷ c.1)) in
    rw test (ap₂ (λ k b. some (pos k, b, rest)) {x = n + suc (length c.1)} (omega arith) filled)

read_loop_full :
    (cs : List (ℕ × List ℕ)) (c : ℕ × List ℕ) (front old : List ℕ) (rest : List Answer) (n : ℕ)
    → n ≡ length front
    → length (bytes_of (c ∷ cs)) ≡ length old
    → read_loop (answers_of (c ∷ cs) ++ rest) n (front ++ old)
      ≡ some (pos (n + length old), front ++ bytes_of (c ∷ cs), rest)
unfolding bytes_of answers_of
read_loop_full [] c front old rest n e whole =
    read_loop_last c front old rest n e (omega (arith, length-append c.1 []))
    ∙ ap (λ xs. some (pos (n + length old), front ++ (c.0 ∷ xs), rest)) (sym (append-nil c.1))
read_loop_full (d ∷ cs) c front old rest n e whole =
    let size = length-append c.1 (bytes_of (d ∷ cs)) in
    let old' = drop (suc (length c.1)) old in
    let left : length old' ≡ length old - suc (length c.1) = length-drop (suc (length c.1)) old in
    read_loop_more c front old (answers_of (d ∷ cs) ++ rest) n e (omega (arith, size))
    ∙ read_loop_full cs d (front ++ (c.0 ∷ c.1)) old' rest (n + suc (length c.1))
        (omega (arith, length-append front (c.0 ∷ c.1))) (omega (arith, size, left))
    ∙ ap₂ (λ k b. some (pos k, b, rest)) {x = n + suc (length c.1) + length old'}
        (omega (arith, left, size)) (append_assoc front (c.0 ∷ c.1) (bytes_of (d ∷ cs)))

-- The loop from its start.
pub read_loop-answers_of :
    (c : ℕ × List ℕ) (cs : List (ℕ × List ℕ)) (rest : List Answer) (buf : List ℕ)
    → length (bytes_of (c ∷ cs)) ≡ length buf
    → read_loop (answers_of (c ∷ cs) ++ rest) 0 buf
      ≡ some (pos (length buf), bytes_of (c ∷ cs), rest)
read_loop-answers_of c cs rest buf whole =
    let count : 0 + length buf ≡ length buf = omega arith in
    read_loop_full cs c [] buf rest 0 refl whole
    ∙ ap (λ k. some (pos k, bytes_of (c ∷ cs), rest)) count

-- From an open device, a frame that arrives in any number of pieces, as long as the buffer
-- altogether, is put together in the buffer, over all that it held; its length is returned, and no
-- answer after it is taken.
pub read-answers_of :
    (d : HidApiDev) (handle : ℕ) (c : ℕ × List ℕ) (cs : List (ℕ × List ℕ)) (rest : List Answer)
    (buf : List ℕ)
    → d.dev ≡ some handle
    → length (bytes_of (c ∷ cs)) ≡ length buf
    → read d (answers_of (c ∷ cs) ++ rest) buf ≡ some (pos (length buf), bytes_of (c ∷ cs), rest)
unfolding read
read-answers_of d handle c cs rest buf opened whole =
    rw (opened, read) (read_loop-answers_of c cs rest buf whole)
