-- ===== src/Go/Fmt.antt =====
-- `fmt.Sprintf` for the verbs that the repository uses: %s and %d, and %v of a text or a number.
-- A verb without an argument is dropped; Go prints a mark there, and no call in the repository has one.
use Prim.Native.Char.{Char, code}
use Prim.Native.String.{◌++◌}
use xgame.Common.{
  ℕ, zero, suc, ◌/◌, ◌%◌, String, Bool, ◌||◌, ◌≡◌, refl, List, [], ◌∷◌, nat_eq, ltb, if◌then◌else◌,
}

pub data Arg : Type 0 where
  text : String → Arg
  num : ℕ → Arg

digit : ℕ → String
digit n =
    if nat_eq n 0
    then "0"
    else if nat_eq n 1
    then "1"
    else if nat_eq n 2
    then "2"
    else if nat_eq n 3
    then "3"
    else if nat_eq n 4
    then "4"
    else if nat_eq n 5
    then "5"
    else if nat_eq n 6
    then "6"
    else if nat_eq n 7
    then "7"
    else if nat_eq n 8
    then "8"
    else "9"

-- The fuel is the number of digits that may follow: 20 are enough for a uint64.
decimal : ℕ → ℕ → String
unfolding digit
decimal zero n = digit (n % 10)
decimal (suc f) n =
    let front = decimal f (n / 10) in if ltb n 10 then digit n else front ++ digit (n % 10)

pub show : Arg → String
unfolding decimal
show (text s) = s
show (num n) = decimal 20 n

-- What an argument list gives for a verb, and what it leaves.
shown : List Arg → String
unfolding show
shown [] = ""
shown (a ∷ rest) = show a

rest_of : List Arg → List Arg
rest_of [] = []
rest_of (a ∷ rest) = rest

is_verb : Char → Bool
is_verb c = nat_eq (code c) b's' || (nat_eq (code c) b'd' || nat_eq (code c) b'v')

unfoldable pub sprintf : String → List Arg → String
unfolding shown rest_of is_verb show
sprintf String.[] args = ""
sprintf (String.◌∷◌ c String.[]) args = String.◌∷◌ c String.[]
sprintf (String.◌∷◌ c (String.◌∷◌ d s)) args =
    let verb = shown args ++ sprintf s (rest_of args) in
    let plain = String.◌∷◌ c (sprintf (String.◌∷◌ d s) args) in
    if nat_eq (code c) b'%' then (if is_verb d then verb else plain) else plain

sprintf_two : sprintf "uid %d at %s" (num 1205 ∷ text "gate1" ∷ []) ≡ "uid 1205 at gate1"
unfolding sprintf
sprintf_two = refl
