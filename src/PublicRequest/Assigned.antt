-- ===== src/PublicRequest/Assigned.antt =====
-- Which updates assign a column twice.
use fred_libfred.Common.{
  ℕ, ◌≡◌, ◌∙◌, refl, List, [], ◌∷◌, ◌++◌, Text, codes, Bool, true, false, ◌&&◌, not, Option, none,
  some,
}
use fred_libfred.PublicRequest.{Status}
use fred_libfred.PublicRequest.Update.{
  UpdatePublicRequest, isset, column_if, status_columns, sql_set, repeats, assigns_twice,
}

-- The columns, by what is set.
abbrev column : Text → Bool → List Text
column name true = name ∷ []
column name false = []

abbrev of_status : Bool → List Text
of_status true = codes "status" ∷ codes "resolve_time" ∷ codes "on_status_action" ∷ []
of_status false = []

abbrev columns : Bool → Bool → Bool → Bool → Bool → Bool → Bool → List Text
columns s r e a g o l =
    of_status s
    ++ (column (codes "reason") r
        ++ (column (codes "email_to_answer") e
            ++ (column (codes "answer_email_id") a
                ++ (column (codes "registrar_id") g
                    ++ (column (codes "on_status_action") o
                        ++ column (codes "resolve_request_id") l)))))

column-isset : {A : Type 0} (name : Text) (o : Option A) → column_if name o ≡ column name (isset o)
column-isset name none = refl
column-isset name (some x) = refl

status-isset : (s : Option Status) → status_columns s ≡ of_status (isset s)
status-isset none = refl
status-isset (some s) = refl

abbrev agree : Bool → Bool → Bool
agree true y = y
agree false y = not y

agree→eq : (x y : Bool) → agree x y ≡ true → x ≡ y
agree→eq true true h = refl
agree→eq true false h = cc
agree→eq false true h = cc
agree→eq false false h = refl

abbrev both : (Bool → Bool) → Bool
both f = f true && f false

every : (f : Bool → Bool) → both f ≡ true → (b : Bool) → f b ≡ true
every f h true = left (f true) (f false) h
  where
    left : (x y : Bool) → (x && y) ≡ true → x ≡ true
    left true y h = refl
    left false y h = cc
every f h false = right (f true) (f false) h
  where
    right : (x y : Bool) → (x && y) ≡ true → y ≡ true
    right true y h = h
    right false y h = cc

agrees : Bool → Bool → Bool → Bool → Bool → Bool → Bool → Bool
agrees s r e a g o l = agree (repeats (columns s r e a g o l)) (s && o)

all_agree :
    both (λ s. both λ r. both λ e. both λ a. both λ g. both λ o. both λ l. agrees s r e a g o l)
    ≡ true
unfolding agrees
all_agree = refl

assigns-columns :
    (u : UpdatePublicRequest) (log : Option ℕ)
    → assigns_twice u log
      ≡ repeats (
          columns
            (isset u.status)
            (isset u.reason)
            (isset u.email_to_answer)
            (isset u.answer_email_id)
            (isset u.registrar_id)
            (isset u.on_status_action)
            (isset log))
unfolding assigns_twice sql_set
assigns-columns u log =
    rw
      (
        status-isset u.status,
        column-isset (codes "reason") u.reason,
        column-isset (codes "email_to_answer") u.email_to_answer,
        column-isset (codes "answer_email_id") u.answer_email_id,
        column-isset (codes "registrar_id") u.registrar_id,
        column-isset (codes "on_status_action") u.on_status_action,
        column-isset (codes "resolve_request_id") log,
      )
      refl

columns_agree : (s r e a g o l : Bool) → repeats (columns s r e a g o l) ≡ (s && o)
unfolding agrees
columns_agree s r e a g o l = agree→eq (repeats (columns s r e a g o l)) (s && o) (
    every (λ l. agrees s r e a g o l)
      (every (λ o. both λ l. agrees s r e a g o l)
        (every (λ g. both λ o. both λ l. agrees s r e a g o l)
          (every (λ a. both λ g. both λ o. both λ l. agrees s r e a g o l)
            (every (λ e. both λ a. both λ g. both λ o. both λ l. agrees s r e a g o l)
              (every (λ r. both λ e. both λ a. both λ g. both λ o. both λ l. agrees s r e a g o l)
                (every
                  (λ s.
                    both
                      λ r. both λ e. both λ a. both λ g. both λ o. both λ l. agrees s r e a g o l)
                  all_agree s)
                r)
              e)
            a)
          g)
        o)
      l)

-- A column is assigned twice exactly by a status together with an action.
pub assigns_twice_lem :
    (u : UpdatePublicRequest) (log : Option ℕ)
    → assigns_twice u log ≡ (isset u.status && isset u.on_status_action)
assigns_twice_lem u log =
    assigns-columns u log
    ∙ columns_agree (isset u.status) (isset u.reason) (isset u.email_to_answer)
        (isset u.answer_email_id) (isset u.registrar_id) (isset u.on_status_action) (isset log)
