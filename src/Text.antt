-- ===== src/Text.antt =====
-- What the program uses of Python's texts: `split` at one character.
use Prim.Native.Char.{Char, code}
use Prim.Native.String
use e_pem.Prelude.{ℕ, String, ◌≡◌, refl, true, false, List, [], ◌∷◌, nat_eq, if◌then◌else◌}

abbrev add_head : Char → List String → List String
add_head c [] = String.◌∷◌ c String.[] ∷ []
add_head c (part ∷ parts) = String.◌∷◌ c part ∷ parts

-- text.split(c), where `separator` is the code of `c`
unfoldable pub split : (separator : ℕ) → String → List String
split separator String.[] = String.[] ∷ []
split separator (String.◌∷◌ c text) =
    let rest = split separator text in
    if nat_eq (code c) separator then String.[] ∷ rest else add_head c rest

abbrev pub last_or : String → List String → String
last_or text [] = text
last_or text (part ∷ parts) = last_or part parts

-- text.split(c)[-1]
unfoldable pub last_part : (separator : ℕ) → String → String
unfolding split
last_part separator text = last_or "" (split separator text)

-- text.split(c)[0]
abbrev first_or : String → List String → String
first_or text [] = text
first_or text (part ∷ parts) = part

unfoldable pub first_part : (separator : ℕ) → String → String
unfolding split
first_part separator text = first_or "" (split separator text)

first_or-add_head :
    (c : Char) (parts : List String)
    → first_or "" (add_head c parts) ≡ String.◌∷◌ c (first_or "" parts)
first_or-add_head c [] = refl
first_or-add_head c (part ∷ parts) = refl

-- a character that is no separator belongs to the first part
pub first_part-cons :
    (separator : ℕ) (c : Char) (text : String)
    → nat_eq (code c) separator ≡ false
    → first_part separator (String.◌∷◌ c text) ≡ String.◌∷◌ c (first_part separator text)
unfolding first_part
first_part-cons separator c text h = rw h (first_or-add_head c (split separator text))

-- a separator at the front leaves the first part empty
pub first_part-separator :
    (separator : ℕ) (c : Char) (text : String)
    → nat_eq (code c) separator ≡ true
    → first_part separator (String.◌∷◌ c text) ≡ ""
unfolding first_part
first_part-separator separator c text h = rw h refl

-- the text of an f-string: its parts one after the other
unfoldable pub concat : List String → String
concat [] = ""
concat (part ∷ parts) = String.◌++◌ part (concat parts)

last_part_runs : last_part b'/' "vyos/add" ≡ "add"
unfolding last_part
last_part_runs = refl
