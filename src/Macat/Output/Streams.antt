-- ===== src/Macat/Output/Streams.antt =====
-- Reading back what is printed for several messages, by a reader of one.
use mangos_v.Prelude.{
  ℕ, zero, suc, ◌≡◌, refl, ap, ◌∙◌, Bool, Option, none, some, List, [], ◌∷◌, ◌++◌, All, length,
}
use mangos_v.Prelude.Bytes.{Bytes}
use mangos_v.Macat.Output.{Format, print_all, print_msg}

-- A reader takes a body off a text, with what follows it.
abbrev pub Reader : Type 0
Reader = Bytes → Option (Bytes × Bytes)

abbrev pub with_body : Bytes → Option (List Bytes) → Option (List Bytes)
with_body body none = none
with_body body (some bodies) = some (body ∷ bodies)

abbrev pub then_rest : Option (Bytes × Bytes) → (Bytes → Option (List Bytes)) → Option (List Bytes)
then_rest none more = none
then_rest (some (body, rest)) more = with_body body (more rest)

-- So many bodies, one after the other, and nothing after them.
abbrev pub read_all : Reader → ℕ → Bytes → Option (List Bytes)
read_all reader zero [] = some []
read_all reader zero (b ∷ text) = none
read_all reader (suc n) text = then_rest (reader text) (read_all reader n)

pub read_all-print_all :
    (reader : Reader) (is_print : ℕ → Bool) (f : Format) (Good : Bytes → Type 0)
    → ((body rest : Bytes)
        → Good body
        → reader (print_msg is_print f body ++ rest) ≡ some (body, rest))
    → (bodies : List Bytes) → All Good bodies
    → read_all reader (length bodies) (print_all is_print f bodies) ≡ some bodies
read_all-print_all reader is_print f Good law [] h = refl
read_all-print_all reader is_print f Good law (body ∷ bodies) h =
    ap (λ o. then_rest o (read_all reader (length bodies)))
      (law body (print_all is_print f bodies) h.0)
    ∙ ap (with_body body) (read_all-print_all reader is_print f Good law bodies h.1)
