-- ===== src/Answers/Exact.antt =====
-- What is read from raw answers, and when.
use prompt_sdk.Prelude.{
  ◌≡◌, ◌↔◌, ◌⊎◌, inl, inr, refl, sym, ap, ◌∙◌, false, Option, some, List, [], ◌∷◌, ◌++◌, Text,
  text_eq, text_eq_iff, ok, All, Bool-cases, Result-cases, Option-cases, arith, if◌then◌else◌,
}
use mathlib.Core.List.{append-nil, append_assoc}
use prompt_sdk.Json.{Json, str, arr, Items, nil, cons, strings}
use prompt_sdk.Answers.{
  type_multi_select, type_text, AnswersMultiSelect, AnswersText, RawAnswer, string_array,
  select_answer, text_answer, Answers, read_one, read_all, read_application_answers,
}

abbrev pub AllStrings : Items → Type 0
AllStrings nil = Unit
AllStrings (cons (str s) items) = AllStrings items
AllStrings (cons _ items) = ⊥

abbrev pub IsStrings : Json → Type 0
IsStrings (arr items) = AllStrings items
IsStrings _ = ⊥

abbrev pub IsString : Json → Type 0
IsString (str s) = Unit
IsString _ = ⊥

-- A raw answer that is a choice with an array of strings, or a text with a string.
abbrev pub IsAnswer : RawAnswer → Type 0
IsAnswer ra =
    ((ra.type ≡ type_multi_select) × IsStrings ra.answer)
    ⊎ ((ra.type ≡ type_text) × IsString ra.answer)

abbrev pub chosen : Json → List Text
chosen (arr items) = strings items
chosen _ = []

abbrev pub written : Json → Text
written (str s) = s
written _ = []

-- The answers of either kind, in order.
abbrev pub multis_one : RawAnswer → List AnswersMultiSelect
multis_one ra =
    if text_eq ra.type type_multi_select
    then record {
      type = ra.type;
      order_num = ra.order_num;
      key = ra.key;
      answer = chosen ra.answer;
    }
      ∷ []
    else []

abbrev pub texts_one : RawAnswer → List AnswersText
texts_one ra =
    if text_eq ra.type type_multi_select
    then []
    else record {
      type = ra.type;
      order_num = ra.order_num;
      key = ra.key;
      answer = written ra.answer;
    }
      ∷ []

abbrev pub multis_of : List RawAnswer → List AnswersMultiSelect
multis_of [] = []
multis_of (ra ∷ ras) = multis_one ra ++ multis_of ras

abbrev pub texts_of : List RawAnswer → List AnswersText
texts_of [] = []
texts_of (ra ∷ ras) = texts_one ra ++ texts_of ras

string_array_lem :
    (items : Items) (acc : List Text)
    → AllStrings items
    → string_array items acc ≡ ok (acc ++ strings items)
unfolding string_array strings
string_array_lem nil acc h = ap (λ l. ok l) (sym (append-nil acc))
string_array_lem (cons (str s) items) acc h =
    string_array_lem items (acc ++ s ∷ []) h
    ∙ ap (λ l. ok l) (append_assoc acc (s ∷ []) (strings items))
string_array_lem (cons _ items) acc h = absurd h

string_array-AllStrings :
    (items : Items) (acc ts : List Text) → string_array items acc ≡ ok ts → AllStrings items
unfolding string_array
string_array-AllStrings nil acc ts h = tt
string_array-AllStrings (cons (str s) items) acc ts h =
    string_array-AllStrings items (acc ++ s ∷ []) ts h
string_array-AllStrings (cons _ items) acc ts h = absurd (ground arith)

select_answer_lem :
    (ra : RawAnswer) (j : Json)
    → IsStrings j
    → select_answer ra j
      ≡ ok (record { type = ra.type; order_num = ra.order_num; key = ra.key; answer = chosen j })
unfolding select_answer
select_answer_lem ra (arr items) h = rw (string_array_lem items [] h, select_answer)
select_answer_lem ra _ h = absurd h

select_answer-IsStrings :
    (ra : RawAnswer) (j : Json) (a : AnswersMultiSelect) → select_answer ra j ≡ ok a → IsStrings j
unfolding select_answer
select_answer-IsStrings ra (arr items) a h = elim (Result-cases (string_array items [])) [
  | inl (ts, e) ↦ string_array-AllStrings items [] ts e
  | inr (fault, e) ↦ absurd (ground arith)
]
select_answer-IsStrings ra _ a h = absurd (ground arith)

text_answer_lem :
    (ra : RawAnswer) (j : Json)
    → IsString j
    → text_answer ra j
      ≡ ok (record { type = ra.type; order_num = ra.order_num; key = ra.key; answer = written j })
unfolding text_answer
text_answer_lem ra (str s) h = refl
text_answer_lem ra _ h = absurd h

text_answer-IsString :
    (ra : RawAnswer) (j : Json) (a : AnswersText) → text_answer ra j ≡ ok a → IsString j
unfolding text_answer
text_answer-IsString ra (str s) a h = tt
text_answer-IsString ra _ a h = absurd (ground arith)

differ : text_eq type_text type_multi_select ≡ false
unfolding text_eq type_text type_multi_select
differ = refl

read_one_lem :
    (ra : RawAnswer) (texts : List AnswersText) (multis : List AnswersMultiSelect)
    → IsAnswer ra
    → read_one ra (texts, multis) ≡ ok (texts ++ texts_one ra, multis ++ multis_one ra)
unfolding read_one
read_one_lem ra texts multis (inl (kind, all)) =
    let is_multi = (text_eq_iff ra.type type_multi_select).1 kind in
    ground (arith, select_answer_lem ra ra.answer all, append-nil texts)
read_one_lem ra texts multis (inr (kind, one)) =
    let no_multi : text_eq ra.type type_multi_select ≡ false =
      ap (λ t. text_eq t type_multi_select) kind ∙ differ in
    let is_text = (text_eq_iff ra.type type_text).1 kind in
    ground (arith, text_answer_lem ra ra.answer one, append-nil multis)

read_one-IsAnswer : (ra : RawAnswer) (acc acc' : Answers) → read_one ra acc ≡ ok acc' → IsAnswer ra
unfolding read_one
read_one-IsAnswer ra acc acc' h = elim (Bool-cases (text_eq ra.type type_multi_select)) [
  | inl e ↦ elim (Result-cases (select_answer ra ra.answer)) [
    | inl (a, f) ↦
        inl ((text_eq_iff ra.type type_multi_select).0 e, select_answer-IsStrings ra ra.answer a f)
    | inr (fault, f) ↦ absurd (ground arith)
  ]
  | inr e ↦ elim (Bool-cases (text_eq ra.type type_text)) [
    | inl g ↦ elim (Result-cases (text_answer ra ra.answer)) [
      | inl (a, f) ↦
          inr ((text_eq_iff ra.type type_text).0 g, text_answer-IsString ra ra.answer a f)
      | inr (fault, f) ↦ absurd (ground arith)
    ]
    | inr g ↦ absurd (ground arith)
  ]
]

read_all-next :
    (ra : RawAnswer) (ras : List RawAnswer) (acc next : Answers)
    → read_one ra acc ≡ ok next
    → read_all (ra ∷ ras) acc ≡ read_all ras next
unfolding read_all
read_all-next ra ras acc next h = rw (h, read_all)

read_all_lem :
    (ras : List RawAnswer) (texts : List AnswersText) (multis : List AnswersMultiSelect)
    → All IsAnswer ras
    → read_all ras (texts, multis) ≡ ok (texts ++ texts_of ras, multis ++ multis_of ras)
unfolding read_all
read_all_lem [] texts multis h = rw (append-nil texts, append-nil multis)
read_all_lem (ra ∷ ras) texts multis (first, rest) =
    read_all-next ra ras (texts, multis) _ (read_one_lem ra texts multis first)
    ∙ read_all_lem ras (texts ++ texts_one ra) (multis ++ multis_one ra) rest
    ∙ (λ i. ok (
      append_assoc texts (texts_one ra) (texts_of ras) i,
      append_assoc multis (multis_one ra) (multis_of ras) i,
    ))

read_all-IsAnswer :
    (ras : List RawAnswer) (acc acc' : Answers) → read_all ras acc ≡ ok acc' → All IsAnswer ras
unfolding read_all
read_all-IsAnswer [] acc acc' h = tt
read_all-IsAnswer (ra ∷ ras) acc acc' h = elim (Result-cases (read_one ra acc)) [
  | inl (next, e) ↦
      (read_one-IsAnswer ra acc next e, read_all-IsAnswer ras next acc' (ground arith))
  | inr (fault, e) ↦ absurd (ground arith)
]

-- Reading succeeds exactly if the data decodes into raw answers of which each is a choice with an
-- array of strings or a text with a string; and then it gives all texts and all choices, each in
-- the order of the data.
pub read_application_answers_iff :
    (raw_answers : Json → Option (List RawAnswer)) (value : Json) (texts : List AnswersText)
    (multis : List AnswersMultiSelect)
    → (read_application_answers raw_answers value ≡ ok (texts, multis)) ↔ (
        (ras : List RawAnswer) × (raw_answers value ≡ some ras)
        × All IsAnswer ras
        × (texts ≡ texts_of ras)
        × (multis ≡ multis_of ras))
unfolding read_application_answers
read_application_answers_iff raw_answers value texts multis =
    elim (Option-cases (raw_answers value)) [
      | inl e ↦ (λ h. absurd (ground arith), λ h. absurd (ground (arith, h.1)))
      | inr (ras, e) ↦ (
        λ h.
            let answers = read_all-IsAnswer ras ([], []) (texts, multis) (ground arith) in
            (
              ras,
              e,
              answers,
              ground (arith, read_all_lem ras [] [] answers),
              ground (arith, read_all_lem ras [] [] answers),
            ),
        λ h. ground (arith, h.1, h.3, h.4, read_all_lem h.0 [] [] h.2),
      )
    ]
