-- ===== src/Web/Render/Counted.antt =====
-- The status that the metrics count for a page, beside the one that its client gets.
use pigeongram_chat.Base.{◌≡◌, refl, ◌∙◌, ap, Option, some, List, [], ◌∷◌, ◌++◌}
use pigeongram_chat.Base.Text.{Text}
use pigeongram_chat.Base.Result.{ok}
use pigeongram_chat.Middleware.{ResponseWriter, Call, writes, calls, call, fresh_writer}
use pigeongram_chat.Web.Render.{
  Templates, http_error, server_error, template_path, written, executed, sent_status,
  render_template,
}

calls-written :
    (ts : List Text) (cs : List Call) (w : ResponseWriter)
    → (k : ResponseWriter) × (calls (written ts ++ cs) w ≡ calls cs k)
      × (k.status_code ≡ w.status_code)
unfolding calls call written
calls-written [] cs w = (w, refl, refl)
calls-written (t ∷ ts) cs w = calls-written ts cs (call (writes t) w)

module _ (T : Templates) (tmpl : Text) (fields : T.Fields) (t : T.Template)
    (parsed : T.parse_files (template_path tmpl ∷ []) ≡ ok t) where
  render_template-executed :
      (p : List Text × Option Text)
      → T.execute t fields ≡ p
      → render_template T tmpl fields ≡ executed p
  unfolding render_template
  render_template-executed p done = rw (parsed, render_template) (ap executed done)

  -- A page whose template fails after it has written something: the client has the status 200 by then,
  -- and the metrics count 500.
  render_template-miscounted :
      (first e : Text) (more : List Text)
      → T.execute t fields ≡ (first ∷ more, some e)
      → (sent_status (render_template T tmpl fields) ≡ 200)
        × ((calls (render_template T tmpl fields) fresh_writer).status_code ≡ 500)
  unfolding sent_status executed written calls call http_error
  render_template-miscounted first e more failed =
      let same = render_template-executed (first ∷ more, some e) failed in
      let (w, done, kept) = calls-written (first ∷ more) server_error fresh_writer in
      (
        ap sent_status same,
        ap (λ cs. (calls cs fresh_writer).status_code) same
            ∙ ap (λ (k : ResponseWriter). k.status_code) done,
      )
