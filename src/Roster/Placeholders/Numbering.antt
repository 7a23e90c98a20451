-- ===== src/Roster/Placeholders/Numbering.antt =====
-- Pieces whose holes are numbered one after the other.
use apekeeper.Common.{
  zero, suc, ℕ, ◌+◌, ◌≡◌, refl, sym, ap, ◌∙◌, List, [], ◌∷◌, ◌++◌, length, length-append, arith,
}
use mathlib.Core.List.{append-nil, append_assoc}
use apekeeper.Roster.{Arg, Piece, lit, hole, join_and}

unfoldable pub numbered : ℕ → List (Piece Arg) → List (Piece ℕ)
numbered n [] = []
numbered n (lit s ∷ ps) = lit s ∷ numbered n ps
numbered n (hole a ∷ ps) = hole n ∷ numbered (n + 1) ps

unfoldable pub holes : {A : Type 0} → List (Piece A) → List A
holes [] = []
holes (lit s ∷ ps) = holes ps
holes (hole a ∷ ps) = a ∷ holes ps

-- n, n + 1, …, as many as given
unfoldable pub count_from : ℕ → ℕ → List ℕ
count_from n zero = []
count_from n (suc k) = n ∷ count_from (n + 1) k

unfoldable pub numbered_all : ℕ → List (List (Piece Arg)) → List (List (Piece ℕ))
unfolding numbered holes
numbered_all n [] = []
numbered_all n (c ∷ cs) = numbered n c ∷ numbered_all (n + length (holes c)) cs

unfoldable pub holes_all : List (List (Piece Arg)) → List Arg
unfolding holes
holes_all [] = []
holes_all (c ∷ cs) = holes c ++ holes_all cs

pub holes-append : {A : Type 0} (ps qs : List (Piece A)) → holes (ps ++ qs) ≡ holes ps ++ holes qs
unfolding holes
holes-append [] qs = refl
holes-append (lit s ∷ ps) qs = holes-append ps qs
holes-append (hole a ∷ ps) qs = ap (λ l. a ∷ l) (holes-append ps qs)

pub numbered-append :
    (n : ℕ) (ps qs : List (Piece Arg))
    → numbered n (ps ++ qs) ≡ numbered n ps ++ numbered (n + length (holes ps)) qs
unfolding numbered holes
numbered-append n [] qs = ap (λ k. numbered k qs) (omega arith)
numbered-append n (lit s ∷ ps) qs = ap (λ l. lit s ∷ l) (numbered-append n ps qs)
numbered-append n (hole a ∷ ps) qs =
    ap (λ l. hole n ∷ l) (numbered-append (n + 1) ps qs)
    ∙ ap (λ k. hole n ∷ numbered (n + 1) ps ++ numbered k qs) (omega arith)

pub numbered_all-add :
    (n : ℕ) (cs : List (List (Piece Arg))) (c : List (Piece Arg))
    → numbered_all n (cs ++ c ∷ [])
      ≡ numbered_all n cs ++ numbered (n + length (holes_all cs)) c ∷ []
unfolding numbered_all holes_all
numbered_all-add n [] c = ap (λ k. numbered k c ∷ []) (omega arith)
numbered_all-add n (d ∷ cs) c =
    ap (λ l. numbered n d ∷ l) (numbered_all-add (n + length (holes d)) cs c)
    ∙ ap (λ k. numbered n d ∷ numbered_all (n + length (holes d)) cs ++ numbered k c ∷ [])
        (omega (arith, length-append (holes d) (holes_all cs)))

pub holes_all-add :
    (cs : List (List (Piece Arg))) (c : List (Piece Arg))
    → holes_all (cs ++ c ∷ []) ≡ holes_all cs ++ holes c
unfolding holes_all
holes_all-add [] c = append-nil (holes c)
holes_all-add (d ∷ cs) c =
    ap (λ l. holes d ++ l) (holes_all-add cs c)
    ∙ sym (append_assoc (holes d) (holes_all cs) (holes c))

pub join-holes : (cs : List (List (Piece Arg))) → holes (join_and cs) ≡ holes_all cs
unfolding join_and holes holes_all
join-holes [] = refl
join-holes (c ∷ []) = sym (append-nil (holes c))
join-holes (c ∷ d ∷ cs) =
    holes-append c (lit " AND " ∷ join_and (d ∷ cs)) ∙ ap (λ l. holes c ++ l) (join-holes (d ∷ cs))

pub join-numbered :
    (n : ℕ) (cs : List (List (Piece Arg))) → join_and (numbered_all n cs) ≡ numbered n (join_and cs)
unfolding join_and numbered numbered_all
join-numbered n [] = refl
join-numbered n (c ∷ []) = refl
join-numbered n (c ∷ d ∷ cs) =
    ap (λ l. numbered n c ++ lit " AND " ∷ l) (join-numbered (n + length (holes c)) (d ∷ cs))
    ∙ sym (numbered-append n c (lit " AND " ∷ join_and (d ∷ cs)))

pub holes-numbered :
    (n : ℕ) (ps : List (Piece Arg)) → holes (numbered n ps) ≡ count_from n (length (holes ps))
unfolding holes numbered count_from
holes-numbered n [] = refl
holes-numbered n (lit s ∷ ps) = holes-numbered n ps
holes-numbered n (hole a ∷ ps) = ap (λ l. n ∷ l) (holes-numbered (n + 1) ps)
