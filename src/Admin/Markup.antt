-- ===== src/Admin/Markup.antt =====
-- What the escaping of names does, and what of a name reaches the script of the page.
use upmessenger.Base.{
  ℕ, ◌≡◌, refl, sym, ap, ◌∙◌, Bool, true, not, ◌&&◌, ◌||◌, [], ◌∷◌, ◌++◌, Text, codes, all_of, ◌==◌,
  if◌then◌else◌, Bool-cases, inl, inr, arith,
}
use upmessenger.Server.Maintenance.{AdminAccountSummary}
use upmessenger.Admin.{replace, html_escape, to_string, account_row}

-- What a character is written as.
abbrev entity : ℕ → Text
entity c =
    if c == b'&'
    then codes "&amp;"
    else if c == b'<'
    then codes "&lt;"
    else if c == b'>'
    then codes "&gt;"
    else if c == b'"'
    then codes "&quot;"
    else c ∷ []

abbrev entities : Text → Text
entities [] = []
entities (c ∷ s) = entity c ++ entities s

html_escape-cons : (c : ℕ) (s : Text) → html_escape (c ∷ s) ≡ entity c ++ html_escape s
unfolding html_escape replace
html_escape-cons c s = elim (Bool-cases (c == b'&')) [
  | inl is ↦ rw is refl
  | inr no_amp ↦ elim (Bool-cases (c == b'<')) [
    | inl is ↦ rw (no_amp, is) refl
    | inr no_lt ↦ elim (Bool-cases (c == b'>')) [
      | inl is ↦ rw (no_amp, no_lt, is) refl
      | inr no_gt ↦ elim (Bool-cases (c == b'"')) [
        | inl is ↦ rw (no_amp, no_lt, no_gt, is) refl
        | inr no_quot ↦ rw (no_amp, no_lt, no_gt, no_quot) refl
      ]
    ]
  ]
]

-- A character that cannot begin or end a tag or an attribute.
abbrev pub harmless : ℕ → Bool
harmless c = not (c == b'<' || c == b'>' || c == b'"')

all_of-append :
    (p : ℕ → Bool) (s t : Text) → all_of p s ≡ true → all_of p t ≡ true → all_of p (s ++ t) ≡ true
all_of-append p [] t hs ht = ht
all_of-append p (c ∷ s) t hs ht = elim (Bool-cases (p c)) [
  | inl good ↦ let rest : all_of p s ≡ true = rw good at hs in rw good (all_of-append p s t rest ht)
  | inr bad ↦ absurd (ground (arith, bad, hs))
]

entity-harmless : (c : ℕ) → all_of harmless (entity c) ≡ true
entity-harmless c = elim (Bool-cases (c == b'&')) [
  | inl is ↦ rw is refl
  | inr no_amp ↦ elim (Bool-cases (c == b'<')) [
    | inl is ↦ rw (no_amp, is) refl
    | inr no_lt ↦ elim (Bool-cases (c == b'>')) [
      | inl is ↦ rw (no_amp, no_lt, is) refl
      | inr no_gt ↦ elim (Bool-cases (c == b'"')) [
        | inl is ↦ rw (no_amp, no_lt, no_gt, is) refl
        | inr no_quot ↦ rw (no_amp, no_lt, no_gt, no_quot, no_lt, no_gt, no_quot) refl
      ]
    ]
  ]
]

html_escape-nil : html_escape [] ≡ []
unfolding html_escape replace
html_escape-nil = refl

-- The four replacements, one after the other, are one pass that writes each character as its entity, or as it
-- is where it has none; in what they give there is no `<`, no `>` and no double quote.
pub html_escape-entities :
    (s : Text) → (html_escape s ≡ entities s) × (all_of harmless (html_escape s) ≡ true)
html_escape-entities [] = rw html_escape-nil (refl, refl)
html_escape-entities (c ∷ s) =
    let (same, safe) = html_escape-entities s in
    rw (html_escape-cons c s) (
      ap (λ t. entity c ++ t) same,
      all_of-append harmless (entity c) (html_escape s) (entity-harmless c) safe,
    )

-- A character that is written as itself.
abbrev pub unescaped : ℕ → Bool
unescaped c = not (c == b'&') && harmless c

entity-unescaped : (c : ℕ) → unescaped c ≡ true → entity c ≡ c ∷ []
entity-unescaped c h = ground arith

entities-unescaped : (s : Text) → all_of unescaped s ≡ true → entities s ≡ s
entities-unescaped [] h = refl
entities-unescaped (c ∷ s) h = elim (Bool-cases (unescaped c)) [
  | inl good ↦
      let rest : all_of unescaped s ≡ true = rw good at h in
      rw (entity-unescaped c good, entities-unescaped s rest) refl
  | inr bad ↦ absurd (ground (arith, bad, h))
]

++-assoc : (r s t : Text) → (r ++ s) ++ t ≡ r ++ (s ++ t)
++-assoc [] s t = refl
++-assoc (c ∷ r) s t = ap (λ x. c ∷ x) (++-assoc r s t)

-- A text that stands somewhere in another.
abbrev pub Contains : Text → Text → Type 0
Contains needle text = (before : Text) × (after : Text) × (text ≡ before ++ (needle ++ after))

Contains-append : (needle s : Text) {t : Text} → Contains needle t → Contains needle (s ++ t)
Contains-append needle s (before, after, e) =
    (s ++ before, after, ap (λ t. s ++ t) e ∙ sym (++-assoc s before (needle ++ after)))

-- The call in the script of the row of an account, with its name between the quotes as it is.
abbrev pub call_of : Text → Text
call_of username = codes "deleteAccount('" ++ (username ++ codes "')")

-- A name without `&`, `<`, `>` and double quotes stands as it is between the single quotes of the script in
-- the row of its account, the single quotes of the name included.
pub account_row-verbatim :
    (a : AdminAccountSummary)
    → all_of unescaped a.username ≡ true
    → Contains (call_of a.username) (account_row a)
unfolding account_row
account_row-verbatim a plain =
    let name : html_escape a.username ≡ a.username =
      (html_escape-entities a.username).0 ∙ entities-unescaped a.username plain in
    let call : Contains (call_of a.username) (
        codes "</td><td><button onclick=\"deleteAccount('"
        ++ (html_escape a.username ++ codes "')\">Delete</button></td></tr>")) =
      (
        codes "</td><td><button onclick=\"",
        codes "\">Delete</button></td></tr>",
        rw (name, ++-assoc a.username (codes "')") (codes "\">Delete</button></td></tr>")) refl,
      ) in
    let n : Text = call_of a.username in
    Contains-append n (codes "<tr><td>") (
      Contains-append n (html_escape a.username) (
        Contains-append n (codes "</td><td>") (
          Contains-append n (html_escape a.upm_id) (
            Contains-append n (codes "</td><td>") (
              Contains-append n (to_string a.device_count) (
                Contains-append n (codes "</td><td>") (
                  Contains-append n (if a.directory_visible then codes "yes" else codes "no")
                    call)))))))
