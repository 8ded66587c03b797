-- ===== src/Transport/Query/Laws.antt =====
-- Reading back the pairs that were joined.
use wickra_exchange.Prelude.{
  ℕ, ◌≡◌, refl, ap, ◌∙◌, true, false, none, List, [], ◌∷◌, ◌++◌, map, ◌==◌, arith, All,
  append_assoc,
}
use wickra_exchange.Prelude.Text.{Text, codes}
use wickra_exchange.Prelude.Strings.{split_at, split_at-append, join}
use wickra_exchange.Transport.Query.{
  percent_decode, split_all, read_pair, read_pairs, read_query, pair_text, lacks, IsUnbrokenPair,
  IsPlainPair,
}

lacks-split_at : (s : ℕ) (t : Text) → lacks s t ≡ true → split_at s t ≡ none
unfolding split_at
lacks-split_at s [] h = refl
lacks-split_at s (c ∷ t) h = ground (arith, lacks-split_at s t)

lacks-append : (s : ℕ) (a b : Text) → lacks s a ≡ true → lacks s b ≡ true → lacks s (a ++ b) ≡ true
lacks-append s [] b ha hb = hb
lacks-append s (c ∷ a) b ha hb = ground (arith, lacks-append s a b)

split_all-lacks : (s : ℕ) (t : Text) → lacks s t ≡ true → split_all s t ≡ t ∷ []
unfolding split_all
split_all-lacks s [] h = refl
split_all-lacks s (c ∷ t) h = ground (arith, split_all-lacks s t)

split_all-append :
    (s : ℕ) (a b : Text) → lacks s a ≡ true → split_all s (a ++ (s ∷ b)) ≡ a ∷ split_all s b
unfolding split_all
split_all-append s [] b h = ground arith
split_all-append s (c ∷ a) b h = ground (arith, split_all-append s a b)

lacks-pair_text :
    (s : ℕ) (p : Text × Text)
    → (b'=' == s) ≡ false
    → lacks s p.0 ≡ true
    → lacks s p.1 ≡ true
    → lacks s (pair_text p) ≡ true
lacks-pair_text s (key, value) e hk hv = lacks-append s key (b'=' ∷ value) hk (ground arith)

-- The pairs, joined.
abbrev pub pairs_text : List (Text × Text) → Text
pairs_text ps = join (codes "&") (map pair_text ps)

pairs_text-cons :
    (p q : Text × Text) (ps : List (Text × Text))
    → pairs_text (p ∷ q ∷ ps) ≡ pair_text p ++ (b'&' ∷ pairs_text (q ∷ ps))
unfolding join
pairs_text-cons p q ps = append_assoc (pair_text p) (b'&' ∷ []) (pairs_text (q ∷ ps))

split_all-pairs_text :
    (p : Text × Text) (ps : List (Text × Text))
    → All IsUnbrokenPair (p ∷ ps)
    → split_all b'&' (pairs_text (p ∷ ps)) ≡ map pair_text (p ∷ ps)
unfolding join
split_all-pairs_text p [] ((hk, hv), _) =
    split_all-lacks b'&' (pair_text p) (lacks-pair_text b'&' p refl hk.0 hv.0)
split_all-pairs_text p (q ∷ ps) ((hk, hv), hs) =
    ap (split_all b'&') (pairs_text-cons p q ps)
    ∙ split_all-append b'&' (pair_text p) (pairs_text (q ∷ ps))
        (lacks-pair_text b'&' p refl hk.0 hv.0)
    ∙ ap (λ ts. pair_text p ∷ ts) (split_all-pairs_text q ps hs)

lacks-pairs_text :
    (ps : List (Text × Text)) → All IsUnbrokenPair ps → lacks b'#' (pairs_text ps) ≡ true
unfolding join
lacks-pairs_text [] h = refl
lacks-pairs_text (p ∷ []) ((hk, hv), _) = lacks-pair_text b'#' p refl hk.2 hv.2
lacks-pairs_text (p ∷ q ∷ ps) ((hk, hv), hs) =
    ap (lacks b'#') (pairs_text-cons p q ps)
    ∙ lacks-append b'#' (pair_text p) (b'&' ∷ pairs_text (q ∷ ps))
        (lacks-pair_text b'#' p refl hk.2 hv.2) (lacks-pairs_text (q ∷ ps) hs)

abbrev pub decoded : Text × Text → Text × Text
decoded (key, value) = (percent_decode key, percent_decode value)

read_pair-pair_text :
    (ps : List (Text × Text))
    → All IsUnbrokenPair ps
    → map read_pair (map pair_text ps) ≡ map decoded ps
read_pair-pair_text [] h = refl
read_pair-pair_text ((key, value) ∷ ps) ((hk, hv), hs) =
    let found = split_at-append b'=' key value (lacks-split_at b'=' key hk.1) in
    cc (found, read_pair-pair_text ps hs)

read_pairs-split_all :
    (t : Text) (p : Text × Text) (ts : List Text)
    → split_all b'&' t ≡ pair_text p ∷ ts
    → read_pairs t ≡ map read_pair (pair_text p ∷ ts)
unfolding split_all
read_pairs-split_all [] ([], value) ts h = cc h
read_pairs-split_all [] (c ∷ key, value) ts h = cc h
read_pairs-split_all (c ∷ t) p ts h = ap (map read_pair) h

pub read_query-pairs_text :
    (ps : List (Text × Text)) → All IsUnbrokenPair ps → read_query (pairs_text ps) ≡ map decoded ps
unfolding read_query split_at join
read_query-pairs_text [] h = refl
read_query-pairs_text (p ∷ ps) h =
    let t = pairs_text (p ∷ ps) in
    rw (lacks-split_at b'#' t (lacks-pairs_text (p ∷ ps) h)) (
      read_pairs-split_all t p (map pair_text ps) (split_all-pairs_text p ps h)
      ∙ read_pair-pair_text (p ∷ ps) h)

pub percent_decode_plain :
    (t : Text) → lacks b'%' t ≡ true → lacks b'+' t ≡ true → percent_decode t ≡ t
unfolding percent_decode
percent_decode_plain [] h k = refl
percent_decode_plain (c ∷ []) h k = ground arith
percent_decode_plain (c ∷ x ∷ []) h k = ground arith
percent_decode_plain (c ∷ x ∷ y ∷ t) h k = ground (arith, percent_decode_plain (x ∷ y ∷ t))

pub map-decoded_plain : (ps : List (Text × Text)) → All IsPlainPair ps → map decoded ps ≡ ps
map-decoded_plain [] h = refl
map-decoded_plain ((key, value) ∷ ps) ((hk, hv), hs) = cc (
  percent_decode_plain key hk.1 hk.2,
  percent_decode_plain value hv.1 hv.2,
  map-decoded_plain ps hs,
)
