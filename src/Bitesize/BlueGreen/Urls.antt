-- ===== src/Bitesize/BlueGreen/Urls.antt =====
-- Where the suffix of a colour goes in a URL.
use environment_operator.Prelude.{
  length, length-append, ◌+◌, ℕ, Text, split, join, contains, false, List, [], ◌∷◌, ◌++◌, ◌≡◌, ◌≢◌,
  refl, arith, ap,
}
use environment_operator.Prelude.Splits.{
  split-append, split_whole, split_pieces, join-split, join-cons,
}
use environment_operator.Bitesize.Types.{BlueGreenServiceSet, blue, green}
use environment_operator.Bitesize.Colour.{colour_name}
use environment_operator.Bitesize.BlueGreen.{blue_green_url_for_kind, suffix_first}

-- The colour is appended to the host's first label, up to the first dot, and all that follows stays.
pub blue_green_url_for_kind-dot :
    (host rest : Text) (kind : BlueGreenServiceSet)
    → contains b'.' host ≡ false
    → blue_green_url_for_kind (host ++ (b'.' ∷ rest)) kind
      ≡ (host ++ (b'-' ∷ colour_name kind)) ++ (b'.' ∷ rest)
unfolding blue_green_url_for_kind
blue_green_url_for_kind-dot host rest kind h =
    rw (split-append b'.' host rest h) (join-cons b'.' (host ++ (b'-' ∷ colour_name kind)) rest)

-- A URL with no dot is one label.
pub blue_green_url_for_kind_whole :
    (url : Text) (kind : BlueGreenServiceSet)
    → contains b'.' url ≡ false
    → blue_green_url_for_kind url kind ≡ url ++ (b'-' ∷ colour_name kind)
unfolding blue_green_url_for_kind join
blue_green_url_for_kind_whole url kind h = rw (split_whole b'.' url h)

length-join-suffix :
    (sep : ℕ) (t : Text) (ps : List Text)
    → ps ≢ []
    → length (join sep (suffix_first t ps)) ≡ length t + length (join sep ps)
unfolding join
length-join-suffix sep t [] h = absurd (h refl)
length-join-suffix sep t (p ∷ []) h = omega (arith, length-append p t)
length-join-suffix sep t (p ∷ q ∷ ps) h =
    let rest = sep ∷ join sep (q ∷ ps) in
    omega (arith, length-append p t, length-append (p ++ t) rest, length-append p rest)

-- The URL grows by the dash and the colour's name, so the two colours have different URLs.
pub length-blue_green_url_for_kind :
    (url : Text) (kind : BlueGreenServiceSet)
    → length (blue_green_url_for_kind url kind) ≡ 1 + length (colour_name kind) + length url
unfolding blue_green_url_for_kind
length-blue_green_url_for_kind url kind =
    let (p, ps, e) = split_pieces b'.' url in
    omega (
      arith,
      length-join-suffix b'.' (b'-' ∷ colour_name kind) (split b'.' url) (λ n. cc),
      ap (length {A = ℕ}) (join-split b'.' url),
    )

-- The two colours of one URL are two URLs.
blue_green_urls_differ :
    (url : Text) → blue_green_url_for_kind url blue ≢ blue_green_url_for_kind url green
unfolding colour_name
blue_green_urls_differ url e = omega (
  arith,
  ap (length {A = ℕ}) e,
  length-blue_green_url_for_kind url blue,
  length-blue_green_url_for_kind url green,
)
