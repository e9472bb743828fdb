-- ===== src/Answers.antt =====
-- promptTypes/applicationAnswer.go: answers to an application, read from decoded JSON. The
-- marshalling of the data and its decoding into raw answers are a parameter; `order_num` is kept
-- as its digits.
pub mod Exact
use prompt_sdk.Prelude.{
  Bool, true, false, Option, none, some, List, [], ◌∷◌, ◌++◌, Text, codes, text_eq, Result, ok, err,
  if◌then◌else◌,
}
use prompt_sdk.Json.{Json, null, bool, num, str, arr, obj, Items, nil, cons}

unfoldable pub type_multi_select : Text
type_multi_select = codes "multiselect"

unfoldable pub type_text : Text
type_text = codes "text"

pub record AnswersMultiSelect : Type 0 where
  pub type : Text
  pub order_num : Text
  pub key : Text
  pub answer : List Text

pub record AnswersText : Type 0 where
  pub type : Text
  pub order_num : Text
  pub key : Text
  pub answer : Text

-- A missing answer is a JSON null.
pub record RawAnswer : Type 0 where
  pub type : Text
  pub order_num : Text
  pub answer : Json
  pub key : Text

pub data AnswerError : Type 0 where
  not_marshalled not_an_array non_string_element not_a_string unknown_type : AnswerError

-- the inner loop
unfoldable pub string_array : Items → List Text → Result AnswerError (List Text)
string_array nil acc = ok acc
string_array (cons (str s) items) acc = string_array items (acc ++ s ∷ [])
string_array (cons _ items) acc = err non_string_element

unfoldable pub select_answer : RawAnswer → Json → Result AnswerError AnswersMultiSelect
unfolding string_array
select_answer ra (arr items) = elim (string_array items []) [
  | err e ↦ err e
  | ok texts ↦
      ok (record { type = ra.type; order_num = ra.order_num; key = ra.key; answer = texts })
]
select_answer ra _ = err not_an_array

unfoldable pub text_answer : RawAnswer → Json → Result AnswerError AnswersText
text_answer ra (str s) =
    ok (record { type = ra.type; order_num = ra.order_num; key = ra.key; answer = s })
text_answer ra _ = err not_a_string

abbrev pub Answers : Type 0
Answers = List AnswersText × List AnswersMultiSelect

-- one round of the loop of step 3
unfoldable pub read_one : RawAnswer → Answers → Result AnswerError Answers
unfolding select_answer text_answer
read_one ra (texts, multis) =
    if text_eq ra.type type_multi_select
    then elim (select_answer ra ra.answer) [ err e ↦ err e | ok a ↦ ok (texts, multis ++ a ∷ []) ]
    else if text_eq ra.type type_text
    then elim (text_answer ra ra.answer) [ err e ↦ err e | ok a ↦ ok (texts ++ a ∷ [], multis) ]
    else err unknown_type

unfoldable pub read_all : List RawAnswer → Answers → Result AnswerError Answers
read_all [] acc = ok acc
read_all (ra ∷ ras) acc = elim (read_one ra acc) [ err e ↦ err e | ok acc' ↦ read_all ras acc' ]

-- `ReadApplicationAnswersFromMetaData`
unfoldable pub read_application_answers :
    (Json → Option (List RawAnswer)) → Json → Result AnswerError Answers
read_application_answers raw_answers value = elim (raw_answers value) [
  | none ↦ err not_marshalled
  | some ras ↦ read_all ras ([], [])
]
