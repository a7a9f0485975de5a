-- ===== src/Config/Schema/Bounded.antt =====
-- What the schema lets through.
use secure_mcp.Shared.{
  ℕ, ◌≤◌, String, ◌≡◌, refl, Bool, true, false, ◌&&◌, Option, none, some, List, [], ◌∷◌, arith, leb,
  and_intro, length, all, subst,
}
use secure_mcp.Config.Values.{
  Json, missing, null, other_number, boolean, number, text, array, object, Items, end, item, ◌>>=◌,
  ensure, integer, checked_text, texts, text_list,
}

pub bind-some :
    {A B : Type 0} (o : Option A) (f : A → Option B) (b : B)
    → (o >>= f) ≡ some b
    → (a : A) × (o ≡ some a) × (f a ≡ some b)
bind-some none f b h = absurd (cc)
bind-some (some a) f b h = (a, refl, h)

ensured : {A : Type 0} (c : Bool) (a b : A) → ensure c a ≡ some b → (c ≡ true) × (a ≡ b)
ensured true a b h = (refl, (cc))
ensured false a b h = absurd (cc)

-- A number between two bounds.
abbrev pub IsIn : ℕ → ℕ → ℕ → Type 0
IsIn low high n = (low ≤ n) × (n ≤ high)

pub integer-IsIn :
    (low high standard n : ℕ) (v : Json)
    → IsIn low high standard
    → integer low high standard v ≡ some n
    → IsIn low high n
unfolding integer
integer-IsIn low high standard n missing h e =
    let same_number : standard ≡ n = (cc) in subst (IsIn low high) same_number h
integer-IsIn low high standard n (number m) h e =
    let (c, same_number) = ensured (leb low m && leb m high) m n e in
    subst (IsIn low high) same_number (ground arith, ground arith)
integer-IsIn low high standard n null h e = absurd (cc)
integer-IsIn low high standard n other_number h e = absurd (cc)
integer-IsIn low high standard n (boolean b) h e = absurd (cc)
integer-IsIn low high standard n (text s) h e = absurd (cc)
integer-IsIn low high standard n (array xs) h e = absurd (cc)
integer-IsIn low high standard n (object fs) h e = absurd (cc)

pub checked_text_lem :
    (p : String → Bool) (v : Json) (s : String) → checked_text p v ≡ some s → p s ≡ true
unfolding checked_text
checked_text_lem p (text x) s e =
    let (c, same_text) = ensured (p x) x s e in subst (λ y. p y ≡ true) same_text c
checked_text_lem p missing s e = absurd (cc)
checked_text_lem p null s e = absurd (cc)
checked_text_lem p other_number s e = absurd (cc)
checked_text_lem p (boolean b) s e = absurd (cc)
checked_text_lem p (number n) s e = absurd (cc)
checked_text_lem p (array xs) s e = absurd (cc)
checked_text_lem p (object fs) s e = absurd (cc)

all-texts :
    (p : String → Bool) (items : Items) (ss : List String)
    → texts p items ≡ some ss
    → all p ss ≡ true
unfolding texts
all-texts p end ss e = let same_list : [] ≡ ss = (cc) in subst (λ x. all p x ≡ true) same_list refl
all-texts p (item v rest) ss e =
    let (s, first, e1) = bind-some (checked_text p v) _ ss e in
    let (more, later, e2) = bind-some (texts p rest) _ ss e1 in
    let same_list : s ∷ more ≡ ss = (cc) in
    subst (λ x. all p x ≡ true) same_list
      (and_intro (checked_text_lem p v s first) (all-texts p rest more later))

-- A list of checked texts, with a length between two bounds.
abbrev pub IsList : (String → Bool) → ℕ → ℕ → List String → Type 0
IsList p low high ss = (all p ss ≡ true) × IsIn low high (length ss)

pub text_list-IsList :
    (p : String → Bool) (low high : ℕ) (standard ss : List String) (v : Json)
    → IsList p low high standard
    → text_list p low high standard v ≡ some ss
    → IsList p low high ss
unfolding text_list
text_list-IsList p low high standard ss missing h e =
    let same_list : standard ≡ ss = (cc) in subst (IsList p low high) same_list h
text_list-IsList p low high standard ss (array items) h e =
    let (found, read, e1) = bind-some (texts p items) _ ss e in
    let (c, same_list) = ensured (leb low (length found) && leb (length found) high) found ss e1 in
    subst (IsList p low high) same_list (all-texts p items found read, (ground arith, ground arith))
text_list-IsList p low high standard ss null h e = absurd (cc)
text_list-IsList p low high standard ss other_number h e = absurd (cc)
text_list-IsList p low high standard ss (boolean b) h e = absurd (cc)
text_list-IsList p low high standard ss (number n) h e = absurd (cc)
text_list-IsList p low high standard ss (text s) h e = absurd (cc)
text_list-IsList p low high standard ss (object fs) h e = absurd (cc)
