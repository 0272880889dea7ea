-- ===== src/Hub/Codec.antt =====
-- A way to write JSON objects as bytes and to read them back, for the runs on concrete inputs of
-- src/ecallisto_ng/services/hub.py: a text for each key and each scalar, and one for the start of an
-- array, each with a zero after it.
use e_callisto_ng.Prelude.Int.{pos, negsuc}
use e_callisto_ng.Prelude.{
  ℕ, zero, suc, ◌≡◌, refl, ap, ◌∙◌, Option, some, List, [], ◌∷◌, ◌==◌, if◌then◌else◌,
}
use e_callisto_ng.Hub.Wire.{Json, Object, Scalar, array, null, number, scalar, text}

abbrev scalar_word : Scalar → List ℕ
scalar_word (number (pos n)) = 0 ∷ n ∷ []
scalar_word (number (negsuc n)) = 1 ∷ n ∷ []
scalar_word (text t) = 2 ∷ t
scalar_word null = 3 ∷ []

abbrev element_words : List Scalar → List (List ℕ) → List (List ℕ)
element_words [] rest = rest
element_words (x ∷ xs) rest = (0 ∷ scalar_word x) ∷ element_words xs rest

abbrev json_words : Json → List (List ℕ) → List (List ℕ)
json_words (scalar x) rest = (1 ∷ scalar_word x) ∷ rest
json_words (array xs) rest = (2 ∷ []) ∷ element_words xs rest

abbrev words : Object → List (List ℕ)
words [] = []
words ((k, v) ∷ kvs) = (3 ∷ k) ∷ json_words v (words kvs)

abbrev bytes_of : List (List ℕ) → List ℕ
bytes_of [] = []
bytes_of ([] ∷ ws) = 0 ∷ bytes_of ws
bytes_of ((c ∷ cs) ∷ ws) = suc c ∷ bytes_of (cs ∷ ws)

abbrev pub dumps : Object → List ℕ
dumps o = bytes_of (words o)

abbrev onto_first : ℕ → List (List ℕ) → List (List ℕ)
onto_first c [] = (c ∷ []) ∷ []
onto_first c (w ∷ ws) = (c ∷ w) ∷ ws

abbrev apart : List ℕ → List (List ℕ)
apart [] = []
apart (zero ∷ cs) = [] ∷ apart cs
apart (suc c ∷ cs) = onto_first c (apart cs)

abbrev first_of : List ℕ → ℕ
first_of [] = 0
first_of (n ∷ ns) = n

abbrev scalar_of : List ℕ → Scalar
scalar_of [] = null
scalar_of (c ∷ w) =
    if c == 0
    then number (pos (first_of w))
    else if c == 1
    then number (negsuc (first_of w))
    else if c == 2
    then text w
    else null

-- What was read from the words on: the pairs, the value and the elements whose start is not yet.
record Reading : Type 0 where
  pairs : Object
  value : Json
  elements : List Scalar

abbrev nothing : Reading
nothing = record { pairs = []; value = scalar null; elements = [] }

abbrev with_word : List ℕ → Reading → Reading
with_word [] r = r
with_word (c ∷ w) r =
    if c == 0
    then record r { elements = scalar_of w ∷ r.elements }
    else if c == 1
    then record r { value = scalar (scalar_of w) }
    else if c == 2
    then record r { value = array r.elements; elements = [] }
    else record r { pairs = (w, r.value) ∷ r.pairs }

abbrev read_words : List (List ℕ) → Reading
read_words [] = nothing
read_words (w ∷ ws) = with_word w (read_words ws)

abbrev pub loads : List ℕ → Option Object
loads bytes = some (read_words (apart bytes)).pairs

apart-bytes_of : (ws : List (List ℕ)) → apart (bytes_of ws) ≡ ws
apart-bytes_of [] = refl
apart-bytes_of ([] ∷ ws) = ap (λ t. [] ∷ t) (apart-bytes_of ws)
apart-bytes_of ((c ∷ cs) ∷ ws) = ap (onto_first c) (apart-bytes_of (cs ∷ ws))

scalar_of-scalar_word : (x : Scalar) → scalar_of (scalar_word x) ≡ x
scalar_of-scalar_word (number (pos n)) = refl
scalar_of-scalar_word (number (negsuc n)) = refl
scalar_of-scalar_word (text t) = refl
scalar_of-scalar_word null = refl

-- The rest has been read, and no element of it is left.
read-element_words :
    (xs : List Scalar) (rest : List (List ℕ))
    → (read_words rest).elements ≡ []
    → ((read_words (element_words xs rest)).elements ≡ xs)
      × ((read_words (element_words xs rest)).pairs ≡ (read_words rest).pairs)
read-element_words [] rest h = (h, refl)
read-element_words (x ∷ xs) rest h =
    let (e, p) = read-element_words xs rest h in
    (
      ap (λ u. u ∷ (read_words (element_words xs rest)).elements) (scalar_of-scalar_word x)
          ∙ ap (λ es. x ∷ es) e,
      p,
    )

read-json_words :
    (v : Json) (rest : List (List ℕ))
    → (read_words rest).elements ≡ []
    → ((read_words (json_words v rest)).elements ≡ [])
      × ((read_words (json_words v rest)).pairs ≡ (read_words rest).pairs)
      × ((read_words (json_words v rest)).value ≡ v)
read-json_words (scalar x) rest h = (h, refl, ap scalar (scalar_of-scalar_word x))
read-json_words (array xs) rest h =
    let (e, p) = read-element_words xs rest h in (refl, p, ap array e)

read-words :
    (o : Object) → ((read_words (words o)).elements ≡ []) × ((read_words (words o)).pairs ≡ o)
read-words [] = (refl, refl)
read-words ((k, v) ∷ kvs) =
    let (e, p) = read-words kvs in
    let (e', p', v') = read-json_words v (words kvs) e in
    (
      e',
      ap (λ u. (k, u) ∷ (read_words (json_words v (words kvs))).pairs) v'
          ∙ ap (λ q. (k, v) ∷ q) (p' ∙ p),
    )

pub loads-dumps : (o : Object) → loads (dumps o) ≡ some o
loads-dumps o =
    ap (λ ws. some (read_words ws).pairs) (apart-bytes_of (words o)) ∙ ap some (read-words o).1
