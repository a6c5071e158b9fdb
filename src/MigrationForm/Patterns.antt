-- ===== src/MigrationForm/Patterns.antt =====
-- What the checks of the form accept.
use future_was.Base.{
  ℕ, Bool, true, false, none, List, [], ◌∷◌, ◌++◌, codes, ◌==◌, ==_iff, ◌≡◌, ◌≢◌, ◌↔◌, refl, sym,
  ap, ◌∙◌, subst, arith,
}
use future_was.Base.Decimal.{is_digit}
use future_was.Base.Regex.{
  Regex, one, seq, star, plus, matches_iff, Matches, star_one_iff, all_chars, take_one, put_one,
}
use future_was.Base.Trim.{all_white, is_empty-trim}
use future_was.MigrationForm.{
  Form, version_re, name_re, refusal, digit, dot, is_name_start, is_name_char,
}

-- A version `x.yy.zz`, its major part of one digit or more.
pub record IsVersion (s : List ℕ) : Type 0 where
  pub major : List ℕ
  pub minor₁ : ℕ
  pub minor₂ : ℕ
  pub patch₁ : ℕ
  pub patch₂ : ℕ
  pub some_major : major ≢ []
  pub major_digits : all_chars is_digit major ≡ true
  pub other_digits : all_chars is_digit (minor₁ ∷ minor₂ ∷ patch₁ ∷ patch₂ ∷ []) ≡ true
  pub parts : s ≡ major ++ 46 ∷ minor₁ ∷ minor₂ ∷ 46 ∷ patch₁ ∷ patch₂ ∷ []

abbrev is_dot : ℕ → Bool
is_dot c = c == 46

abbrev minor_patch : Regex
minor_patch = seq digit (seq digit (seq dot (seq digit digit)))

-- What follows the major part.
rest_sound :
    (s : List ℕ)
    → Matches (seq dot minor_patch) s
    → (a : ℕ) × (b : ℕ) × (c : ℕ) × (d : ℕ) × (all_chars is_digit (a ∷ b ∷ c ∷ d ∷ []) ≡ true)
      × (s ≡ 46 ∷ a ∷ b ∷ 46 ∷ c ∷ d ∷ [])
rest_sound s m =
    let (x, t₁, e₁, x_dot, n₁) = take_one is_dot minor_patch s m in
    let (a, t₂, e₂, a_digit, n₂) =
      take_one is_digit (seq digit (seq dot (seq digit digit))) t₁ n₁ in
    let (b, t₃, e₃, b_digit, n₃) = take_one is_digit (seq dot (seq digit digit)) t₂ n₂ in
    let (y, t₄, e₄, y_dot, n₄) = take_one is_dot (seq digit digit) t₃ n₃ in
    let (c, t₅, e₅, c_digit, n₅) = take_one is_digit digit t₄ n₄ in
    let (d, e₆, d_digit) = n₅ in
    let first : x ≡ 46 = (==_iff x 46).0 x_dot in
    let second : y ≡ 46 = (==_iff y 46).0 y_dot in
    (a, b, c, d, rw (a_digit, b_digit, c_digit, d_digit), cc)

IsVersion-sound : (s : List ℕ) → Matches version_re s → IsVersion s
IsVersion-sound s (m, t, e, (u, v, f, (c, g, c_digit), more), rest) =
    let (a, b, i, j, digits, after) = rest_sound t rest in
    let major : m ≡ c ∷ v = f ∙ ap (λ x. x ++ v) g in
    record {
      major = c ∷ v;
      minor₁ = a;
      minor₂ = b;
      patch₁ = i;
      patch₂ = j;
      some_major = λ nil. cc;
      major_digits = rw c_digit ((star_one_iff is_digit v).0 more);
      other_digits = digits;
      parts = e ∙ ap (λ x. x ++ t) major ∙ ap (λ x. (c ∷ v) ++ x) after;
    }

rest_complete :
    (a b c d : ℕ)
    → all_chars is_digit (a ∷ b ∷ c ∷ d ∷ []) ≡ true
    → Matches (seq dot minor_patch) (46 ∷ a ∷ b ∷ 46 ∷ c ∷ d ∷ [])
rest_complete a b c d h = put_one is_dot minor_patch 46 (a ∷ b ∷ 46 ∷ c ∷ d ∷ []) refl (
    put_one is_digit (seq digit (seq dot (seq digit digit))) a (b ∷ 46 ∷ c ∷ d ∷ []) (ground arith)
      (put_one is_digit (seq dot (seq digit digit)) b (46 ∷ c ∷ d ∷ []) (ground arith) (
        put_one is_dot (seq digit digit) 46 (c ∷ d ∷ []) refl
          (put_one is_digit digit c (d ∷ []) (ground arith) (d, refl, ground arith)))))

plus_complete : (m : List ℕ) → m ≢ [] → all_chars is_digit m ≡ true → Matches (plus digit) m
plus_complete [] some_digit h = absurd (some_digit refl)
plus_complete (c ∷ m) some_digit h =
    put_one is_digit (star digit) c m (ground arith) ((star_one_iff is_digit m).1 (ground arith))

pub IsVersion-complete : (s : List ℕ) → IsVersion s → Matches version_re s
IsVersion-complete s v = (
  v.major,
  46 ∷ v.minor₁ ∷ v.minor₂ ∷ 46 ∷ v.patch₁ ∷ v.patch₂ ∷ [],
  v.parts,
  plus_complete v.major v.some_major v.major_digits,
  rest_complete v.minor₁ v.minor₂ v.patch₁ v.patch₂ v.other_digits,
)

-- A name in snake case: it does not begin with an underscore.
pub record IsName (s : List ℕ) : Type 0 where
  pub first : ℕ
  pub others : List ℕ
  pub parts : s ≡ first ∷ others
  pub first_ok : is_name_start first ≡ true
  pub others_ok : all_chars is_name_char others ≡ true

pub IsName-iff : (s : List ℕ) → Matches name_re s ↔ IsName s
IsName-iff s = (
  λ m.
      let (c, t, e, h, n) = take_one is_name_start (star (one is_name_char)) s m in
      record {
        first = c;
        others = t;
        parts = e;
        first_ok = h;
        others_ok = (star_one_iff is_name_char t).0 n;
      },
  λ n. subst (Matches name_re) (sym n.parts) (
      put_one is_name_start (star (one is_name_char)) n.first n.others n.first_ok
        ((star_one_iff is_name_char n.others).1 n.others_ok)),
)

-- The form passes its checks exactly when the version has the shape x.yy.zz, the name is in snake
-- case and the author is not blank.
pub refusal_iff :
    (f : Form)
    → (refusal f ≡ none)
      ↔ (IsVersion (codes f.version) × IsName (codes f.name) × (all_white f.author ≡ false))
unfolding refusal
refusal_iff f =
    let version = matches_iff version_re (codes f.version) in
    let name = matches_iff name_re (codes f.name) in
    let author = is_empty-trim f.author in
    (
      λ passes. (
        IsVersion-sound _ (version.0 (ground arith)),
        (IsName-iff _).0 (name.0 (ground arith)),
        ground arith,
      ),
      λ (v, n, a).
          rw (version.1 (IsVersion-complete _ v), name.1 ((IsName-iff _).1 n)) (ground arith),
    )
