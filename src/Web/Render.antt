-- ===== src/Web/Render.antt =====
-- The rendering of a page (web/render.go) as the calls on the writer of the response, and
-- `HealthCheckHandler` (web/debug.go). The package html/template is a parameter: what it parses, and
-- what it writes before it is done or fails.
pub mod Counted
use pigeongram_chat.Base.{ℕ, ◌-◌, ◌≡◌, refl, Option, none, some, List, [], ◌∷◌, ◌++◌, arith}
use pigeongram_chat.Base.Text.{Text, bytes}
use pigeongram_chat.Base.Result.{Result, ok, err}
use pigeongram_chat.Middleware.{Call, writes_header, writes, calls, call, fresh_writer}

-- `template.ParseFiles`, `Execute` and `ExecuteTemplate`, for the data of a page.
pub record Templates : Type 1 where
  pub Template : Type 0
  pub Fields : Type 0
  pub parse_files : List Text → Result Text Template
  pub execute : Template → Fields → List Text × Option Text
  pub execute_template : Text → Template → Fields → List Text × Option Text

-- `http.Error`
unfoldable pub http_error : Text → ℕ → List Call
http_error text code = writes_header code ∷ writes (text ++ (b'\n' ∷ [])) ∷ []

abbrev pub server_error : List Call
server_error = http_error (bytes "Internal Server Error") 500

-- `filepath.Join("web", "templates", tmpl)`, for the plain names that the handlers give
abbrev pub template_path : Text → Text
template_path tmpl = bytes "web/templates/" ++ tmpl

unfoldable pub written : List Text → List Call
written [] = []
written (t ∷ ts) = writes t ∷ written ts

-- What the template wrote, and the error after it.
unfoldable pub executed : List Text × Option Text → List Call
unfolding written http_error
executed (texts, none) = written texts
executed (texts, some e) = written texts ++ server_error

-- The status that the client sees: the first header, or 200 with the first byte.
unfoldable pub sent_status : List Call → ℕ
sent_status [] = 200
sent_status (writes_header code ∷ cs) = code
sent_status (writes t ∷ cs) = 200

module _ (T : Templates) where
  -- `renderTemplate`
  unfoldable pub render_template : Text → T.Fields → List Call
  unfolding executed http_error
  render_template tmpl fields = elim (T.parse_files (template_path tmpl ∷ [])) [
    | err e ↦ server_error
    | ok t ↦ executed (T.execute t fields)
  ]

  -- `renderTemplateWithLayout`
  unfoldable pub render_template_with_layout : Text → T.Fields → List Call
  unfolding executed http_error
  render_template_with_layout tmpl fields =
      elim (T.parse_files (template_path (bytes "layout.html") ∷ template_path tmpl ∷ [])) [
        | err e ↦ server_error
        | ok t ↦ executed (T.execute_template (bytes "layout") t fields)
      ]

-- The answer of `HealthCheckHandler`, with the texts of a time and of a duration.
pub record Health : Type 0 where
  pub health_status : Text
  pub time : Text
  pub uptime : Text

unfoldable pub health_check : (ℕ → Text) → (ℕ → Text) → ℕ → ℕ → Health
health_check of_time of_duration start_time now = record {
  health_status = bytes "ok";
  time = of_time now;
  uptime = of_duration (now - start_time);
}
