-- ===== src/Server/Handling/Uploaded.antt =====
-- An upload from its report to the clients (web/file_handlers.go, internal/websocket/manager.go).
use pigeongram_chat.Base.{
  ℕ, ◌+◌, ◌≡◌, refl, ◌∙◌, ap, false, Option, some, [], ◌∷◌, is_empty, nat_eq, if-both,
}
use pigeongram_chat.Base.Text.{Text}
use pigeongram_chat.Base.Dict.{lookup}
use pigeongram_chat.Websocket.Channels.{FileInfo, FileEventData, offer}
use pigeongram_chat.Websocket.Manager.{Outside, Manager, broadcast_file_event}
use pigeongram_chat.Websocket.Manager.Deliver.{touched}
use pigeongram_chat.Websocket.Manager.Invariant.{
  IsValid, deliver-Inv, send_file_event-Works, got_file_event,
}
use pigeongram_chat.Websocket.Manager.Cluster.{publish, publish_file_event}
use pigeongram_chat.Websocket.Manager.Cases.{handle_file_event}
use pigeongram_chat.Websocket.Manager.Run.{takes_file_event, step}
use pigeongram_chat.Web.Files.{Answer, Hub}
use pigeongram_chat.Web.Uploads
use pigeongram_chat.Web.Uploads.{UploadReport, UploadTotals, clean_key}
use pigeongram_chat.Web.Uploads.Announced.{told, IsReported, upload_complete-announces}
use pigeongram_chat.Server.App.{Surroundings, App, Request, Chances, Body, sends, hub, with_hub}
use pigeongram_chat.Server.Handling.{Outcome, of_answer, uploaded}

module _ {W : Outside} where
  -- The state follows in which every registered client, and no other, has been sent the event, and in
  -- which the manager's count of uploads is the same.
  abbrev pub TellsAll : FileEventData → Manager W → Option (Manager W) → Type 0
  TellsAll event m o =
      (m' : Manager W) × (o ≡ some m')
      × ((q : ℕ) → lookup q m'.heap ≡ touched (got_file_event event) m.clients q (lookup q m.heap))
      × (m'.metrics.files_uploaded_total ≡ m.metrics.files_uploaded_total)
      × IsValid m'

  broadcast_file_event-TellsAll :
      (event : FileEventData) (m : Manager W)
      → IsValid m
      → TellsAll event m (broadcast_file_event event m)
  unfolding broadcast_file_event
  broadcast_file_event-TellsAll event m v =
      let (h, n, done, spec, inv) =
        deliver-Inv (send_file_event-Works event) (λ c. refl) m.clients m.heap m.online_users _ _
          v.inv in
      (
        record m {
          heap = h;
          metrics = record (m.metrics) { file_queue_full = m.metrics.file_queue_full + n };
        },
        rw (done, broadcast_file_event),
        spec,
        refl,
        record { inv = inv; repo = v.repo },
      )

  -- The event of an upload has a pointer for a file, which the manager does not count.
  told-TellsAll :
      (at : ℕ) (chat_id username : Text) (f : FileInfo) (m : Manager W)
      → IsValid m
      → TellsAll (told at chat_id username f) m (handle_file_event (told at chat_id username f) m)
  unfolding handle_file_event publish_file_event publish
  told-TellsAll at chat_id username f m v =
      if-both
        (λ k.
          TellsAll (told at chat_id username f) m
            (broadcast_file_event (told at chat_id username f) k))
        m.has_redis
        (broadcast_file_event-TellsAll (told at chat_id username f) _
          (record { inv = v.inv; repo = v.repo }))
        (broadcast_file_event-TellsAll (told at chat_id username f) _
          (record { inv = v.inv; repo = v.repo }))

module _ {E : Surroundings} where
  -- In a valid state in which no file event waits, a report of an upload by a user is answered with 200
  -- and counted once: the totals grow by one file of the size that the store knows of, 0 if it does not
  -- know it. When the manager then takes the event, it goes to every registered client, and to no
  -- other, as far as its channel has room: an upload to the chat of the report, by the user as sender
  -- and owner, of the file under the cleaned key; the manager does not count it again.
  pub uploaded-TellsAll :
      (r : Request) (c : Chances) (username : Text) (report : UploadReport) (a : App E)
      → IsValid a.manager
      → a.manager.file_events ≡ []
      → is_empty username ≡ false
      → r.report ≡ some report
      → (f : FileInfo) × IsReported E.store report.chat_id
          (clean_key E.client.bucket_name report.key)
          a.objects
          f
        × (b : App E) × (uploaded r c username a ≡ some (sends Body.accepted, b))
        × (b.totals ≡ record {
          files_uploaded = a.totals.files_uploaded + 1;
          files_size = a.totals.files_size + f.size;
        })
        × TellsAll
            (told c.later report.chat_id username f)
            a.manager
            (step takes_file_event b.manager)
  unfolding uploaded step
  uploaded-TellsAll r c username report a v idle user sent =
      let (f, known, done) =
        upload_complete-announces E.store E.client c.now c.later username report (hub a) a.totals
          user in
      let event = told c.later report.chat_id username f in
      let totals : UploadTotals = record {
        files_uploaded = a.totals.files_uploaded + 1;
        files_size = a.totals.files_size + f.size;
      } in
      let outcome : Answer (Unit {0}) × Hub E.store × UploadTotals → Outcome E = λ (answer, h, n).
        some (of_answer (λ _. Body.accepted) answer, record (with_hub h a) { totals = n }) in
      let b : App E = record a {
        manager = record (a.manager) { file_events = event ∷ [] };
        totals = totals;
      } in
      (
        f,
        known,
        b,
        ap
              (λ o. outcome (
                Uploads.upload_complete E.store E.client c.now c.later username o (hub a) a.totals))
              sent
            ∙ ap outcome done
            ∙ ap
                (λ q. some (
                  sends Body.accepted,
                  record a {
                    manager = record (a.manager) { file_events = offer 100 event q };
                    totals = totals;
                  },
                ))
                idle,
        refl,
        told-TellsAll c.later report.chat_id username f _ (record { inv = v.inv; repo = v.repo }),
      )
