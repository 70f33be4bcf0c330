-- ===== src/Base/AsyncLog/Rolling.antt =====
-- base/AsyncLog.cpp: how large the files become.
use learning_tools.Prelude.{
  ℕ, ◌^◌, ◌<◌, sym, ◌≡◌, ◌≢◌, refl, ap, ◌∙◌, arith, ltb, ◌&&◌, Bool, true, List, [], ◌∷◌, ◌++◌,
  length,
}
use learning_tools.Base.AsyncLog.{
  Line, Log, init, set_level, push_line, create_new_file, roll, take_line, print_line,
}
use learning_tools.Base.AsyncLog.Order.{in_hand, output-queued, Reach-printed}
use learning_tools.Base.AsyncLog.Steps.{
  Step, rolls, takes, leaves, prints, outputs, dumps, sets_level, exits, prints_fatal, fails_fatal,
  opens_fatal, writes_fatal, Reach, start, next,
}
use learning_tools.Base.AsyncLog.Sizes.{
  all_below, is_ready, is_stopped, Inv, roll-Inv, print_line-Inv, written-whole, push_line-Inv,
  set_level-Inv,
}

-- Lines whose length an int can hold.
abbrev pub all_short : List Line → Bool
all_short [] = true
all_short (x ∷ xs) = ltb (length x) (2 ^ 31) && all_short xs

all_short-append :
    (xs ys : List Line)
    → all_short (xs ++ ys) ≡ true
    → (all_short xs ≡ true) × (all_short ys ≡ true)
all_short-append [] ys h = (refl, h)
all_short-append (x ∷ xs) ys h =
    let rest = all_short-append xs ys (ground (arith, h)) in
    (ground (arith, rest, h), ground (arith, rest))

append_empty : (xs ys : List Line) → xs ++ ys ≡ [] → (xs ≡ []) × (ys ≡ [])
append_empty [] ys h = (refl, h)
append_empty (x ∷ xs) ys h = ground (arith, h)

no_urgent :
    (l : Log) (line : Line) (front back : List Line)
    → l.urgent ≡ front ++ line ∷ back
    → l.urgent ≢ []
no_urgent l line front back e h =
    let (_, none_left) = append_empty front (line ∷ back) (sym e ∙ h) in ground (arith, none_left)

-- With no FATAL line, and a line in the thread's hand that an int can count.
Step-Inv :
    {l l' : Log} {lines urgent : List Line}
    → Step l l' lines urgent
    → urgent ≡ []
    → l.urgent ≡ []
    → all_short (in_hand l.phase) ≡ true
    → Inv l
    → Inv l' × (l'.urgent ≡ [])
unfolding take_line roll create_new_file print_line push_line set_level
Step-Inv (rolls l opens e) calm idle short inv = (roll-Inv opens l e inv, ground (arith, idle))
Step-Inv (takes l line lines e g) calm idle short inv = (
  record {
    counted = λ _. inv.counted (ap is_stopped e);
    room = λ b. inv.room (ap (λ p. is_ready p && l.to_file) e ∙ b);
    fits = inv.fits;
    closed_fit = inv.closed_fit;
  },
  idle,
)
Step-Inv (leaves l e g q) calm idle short inv = (
  record {
    counted = λ b. ground (arith, b);
    room = λ b. ground (arith, b);
    fits = inv.fits;
    closed_fit = inv.closed_fit;
  },
  idle,
)
Step-Inv (prints l line ok bytes fwrite law e g) calm idle short inv =
    let few = sym (ap (λ p. all_short (in_hand p)) e) ∙ short in
    let whole = written-whole fwrite line ok bytes law (ground (arith, few)) g in
    (print_line-Inv line ok bytes l e whole inv, ground (arith, idle))
Step-Inv (outputs l l' n opens fwrite line e) calm idle short inv =
    rw (output-queued n opens fwrite line l l' e) (push_line-Inv line l inv, idle)
Step-Inv (dumps l line) calm idle short inv = (push_line-Inv line l inv, idle)
Step-Inv (sets_level l n) calm idle short inv = (set_level-Inv n l inv, ground (arith, idle))
Step-Inv (exits l) calm idle short inv = (
  record { counted = inv.counted; room = inv.room; fits = inv.fits; closed_fit = inv.closed_fit },
  idle,
)
Step-Inv (prints_fatal l line) calm idle short inv = ground (arith, calm)
Step-Inv (fails_fatal l line front back e g h) calm idle short inv =
    let some_urgent = no_urgent l line front back e in ground (arith, some_urgent, idle)
Step-Inv (opens_fatal l line front back e g h) calm idle short inv =
    let some_urgent = no_urgent l line front back e in ground (arith, some_urgent, idle)
Step-Inv (writes_fatal l line bytes front back e g) calm idle short inv =
    let some_urgent = no_urgent l line front back e in ground (arith, some_urgent, idle)

Reach-Inv :
    {to_file truncates : Bool} {roll_size : ℕ} {l : Log} {queue fatals : List Line}
    → Reach (init to_file truncates roll_size) l queue fatals
    → fatals ≡ []
    → all_short queue ≡ true
    → 0 < roll_size
    → Inv l × (l.urgent ≡ [])
Reach-Inv start calm short h = (
  record { counted = λ _. refl; room = λ b. ground (arith, b); fits = h; closed_fit = refl },
  refl,
)
Reach-Inv (next {l = l} {queue = queue} {lines = lines} {fatals = fatals} {urgent = urgent} r s e g)
      calm short h =
    let (calm', calm'') = append_empty fatals urgent (sym g ∙ calm) in
    let (short', _) = all_short-append queue lines (sym (ap all_short e) ∙ short) in
    let (front, (_, row)) = Reach-printed r in
    let (_, waiting) =
      all_short-append front (in_hand l.phase ++ l.lines) (ap all_short row ∙ short') in
    let (hand, _) = all_short-append (in_hand l.phase) l.lines waiting in
    let (inv, idle) = Reach-Inv r calm' short' h in Step-Inv s calm'' idle hand inv

Step-roll_size :
    {l l' : Log} {lines urgent : List Line} → Step l l' lines urgent → l'.roll_size ≡ l.roll_size
unfolding roll create_new_file take_line print_line push_line set_level
Step-roll_size (rolls l opens e) = ground arith
Step-roll_size (takes l line lines e g) = refl
Step-roll_size (leaves l e g q) = refl
Step-roll_size (prints l line ok bytes fwrite law e g) = ground arith
Step-roll_size (outputs l l' n opens fwrite line e) =
    ap (λ x. x.roll_size) (output-queued n opens fwrite line l l' e)
Step-roll_size (dumps l line) = refl
Step-roll_size (sets_level l n) = ground arith
Step-roll_size (exits l) = refl
Step-roll_size (prints_fatal l line) = refl
Step-roll_size (fails_fatal l line front back e g h) = refl
Step-roll_size (opens_fatal l line front back e g h) = refl
Step-roll_size (writes_fatal l line bytes front back e g) = refl

Reach-roll_size :
    {to_file truncates : Bool} {roll_size : ℕ} {l : Log} {queue fatals : List Line}
    → Reach (init to_file truncates roll_size) l queue fatals
    → l.roll_size ≡ roll_size
Reach-roll_size start = refl
Reach-roll_size (next r s e g) = Step-roll_size s ∙ Reach-roll_size r

-- As long as no FATAL line is output and each line has less than 2^31 bytes, whatever the interleaving, and however
-- much fwrite(3) takes: in every file that the thread writes, open or closed, what stands before the
-- last piece is below the size at which files are rolled, as long as that size is not 0. (A FATAL line is
-- written without being counted.)
pub Reach-all_below :
    {to_file truncates : Bool} {roll_size : ℕ} {l : Log} {queue : List Line}
    → Reach (init to_file truncates roll_size) l queue []
    → all_short queue ≡ true
    → 0 < roll_size
    → all_below roll_size (l.current ∷ l.closed) ≡ true
Reach-all_below r short h =
    let (inv, _) = Reach-Inv r refl short h in
    let fits = inv.fits in
    let closed_fit = inv.closed_fit in
    let size = Reach-roll_size r in ground (arith, fits, closed_fit, size)
