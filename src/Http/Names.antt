-- ===== src/Http/Names.antt =====
-- The texts of the methods of src/http/http.h name one method each.
use net_ninja.Common.{
  ◌==◌, ◌⊎◌, inl, inr, true, Bool-cases, if_true, ap, ◌∙◌, arith, Bool, ◌&&◌, ◌≡◌, refl, List, [],
  ◌∷◌, ◌++◌,
}
use net_ninja.Http.{Text, c_str, same_text, starts_with}
use net_ninja.Http.Methods.{
  HttpMethod, http_method_map, number, first_method, string_to_http_method, chars_to_http_method,
  s_method_string, http_method_to_string,
}

-- A method that is printed is read back, by StringToHttpMethod and, whatever follows it, by
-- CharsToHttpMethod: no text of a method is the start of another's.
pub http_method-http_method_to_string :
    (m : HttpMethod) (rest : Text)
    → (string_to_http_method (http_method_to_string m) ≡ m)
      × (chars_to_http_method (http_method_to_string m ++ rest) ≡ m)
unfolding http_method_map number first_method string_to_http_method chars_to_http_method
    s_method_string http_method_to_string c_str same_text starts_with
http_method-http_method_to_string HttpMethod.delete rest = (refl, refl)
http_method-http_method_to_string HttpMethod.get rest = (refl, refl)
http_method-http_method_to_string HttpMethod.head rest = (refl, refl)
http_method-http_method_to_string HttpMethod.post rest = (refl, refl)
http_method-http_method_to_string HttpMethod.put rest = (refl, refl)
http_method-http_method_to_string HttpMethod.connect rest = (refl, refl)
http_method-http_method_to_string HttpMethod.options rest = (refl, refl)
http_method-http_method_to_string HttpMethod.trace rest = (refl, refl)
http_method-http_method_to_string HttpMethod.copy rest = (refl, refl)
http_method-http_method_to_string HttpMethod.lock rest = (refl, refl)
http_method-http_method_to_string HttpMethod.mkcol rest = (refl, refl)
http_method-http_method_to_string HttpMethod.move rest = (refl, refl)
http_method-http_method_to_string HttpMethod.propfind rest = (refl, refl)
http_method-http_method_to_string HttpMethod.proppatch rest = (refl, refl)
http_method-http_method_to_string HttpMethod.search rest = (refl, refl)
http_method-http_method_to_string HttpMethod.unlock rest = (refl, refl)
http_method-http_method_to_string HttpMethod.bind rest = (refl, refl)
http_method-http_method_to_string HttpMethod.rebind rest = (refl, refl)
http_method-http_method_to_string HttpMethod.unbind rest = (refl, refl)
http_method-http_method_to_string HttpMethod.acl rest = (refl, refl)
http_method-http_method_to_string HttpMethod.report rest = (refl, refl)
http_method-http_method_to_string HttpMethod.mkactivity rest = (refl, refl)
http_method-http_method_to_string HttpMethod.checkout rest = (refl, refl)
http_method-http_method_to_string HttpMethod.merge rest = (refl, refl)
http_method-http_method_to_string HttpMethod.msearch rest = (refl, refl)
http_method-http_method_to_string HttpMethod.notify rest = (refl, refl)
http_method-http_method_to_string HttpMethod.subscribe rest = (refl, refl)
http_method-http_method_to_string HttpMethod.unsubscribe rest = (refl, refl)
http_method-http_method_to_string HttpMethod.patch rest = (refl, refl)
http_method-http_method_to_string HttpMethod.purge rest = (refl, refl)
http_method-http_method_to_string HttpMethod.mkcalendar rest = (refl, refl)
http_method-http_method_to_string HttpMethod.link rest = (refl, refl)
http_method-http_method_to_string HttpMethod.unlink rest = (refl, refl)
http_method-http_method_to_string HttpMethod.source rest = (refl, refl)
http_method-http_method_to_string HttpMethod.invalid_method rest = (refl, refl)

pub same_text_eq : (s t : Text) → same_text s t ≡ true → s ≡ t
unfolding same_text
same_text_eq [] [] h = refl
same_text_eq [] (y ∷ t) h = cc
same_text_eq (x ∷ s) [] h = cc
same_text_eq (x ∷ s) (y ∷ t) h =
    let a : x ≡ y = ground arith in let b : s ≡ t = same_text_eq s t (ground arith) in cc

pub same_text_self : (s : Text) → same_text s s ≡ true
unfolding same_text
same_text_self [] = refl
same_text_self (x ∷ s) =
    let e : (x == x) ≡ true = ground arith in let h = same_text_self s in rw (e, h) refl

-- Whether each line of the list has the text that its method is printed with.
abbrev all_named : List (HttpMethod × Text) → Bool
all_named [] = true
all_named (e ∷ l) = same_text (http_method_to_string e.0) e.1 && all_named l

first_method_named :
    (t : Text) (l : List (HttpMethod × Text))
    → all_named l ≡ true
    → (first_method (λ s. same_text s t) l ≡ HttpMethod.invalid_method)
      ⊎ (http_method_to_string (first_method (λ s. same_text s t) l) ≡ t)
unfolding first_method
first_method_named t [] h = inl refl
first_method_named t (e ∷ l) h =
    let named : same_text (http_method_to_string e.0) e.1 ≡ true = ground arith in
    let others : all_named l ≡ true = ground arith in
    elim (Bool-cases (same_text e.1 t)) [
      | inl a ↦ inr (
          ap http_method_to_string (if_true a _ _)
          ∙ same_text_eq (http_method_to_string e.0) e.1 named
          ∙ same_text_eq e.1 t a)
      | inr a ↦ rw a (first_method_named t l others)
    ]

map_named : all_named http_method_map ≡ true
unfolding http_method_map s_method_string http_method_to_string number same_text
map_named = refl

-- StringToHttpMethod gives the method whose text it is given, up to a zero byte, or none.
pub string_to_http_method-IsNamed :
    (m : Text)
    → (string_to_http_method m ≡ HttpMethod.invalid_method)
      ⊎ (http_method_to_string (string_to_http_method m) ≡ c_str m)
unfolding string_to_http_method
string_to_http_method-IsNamed m = first_method_named (c_str m) http_method_map map_named
