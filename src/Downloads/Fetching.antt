-- ===== src/Downloads/Fetching.antt =====
-- A download of a file, and the moving of files, leave in place what exists elsewhere.
use render_studio_kit.Shared.{ℕ, zero, suc, ◌≡◌, refl, ◌∙◌, List, [], ◌∷◌, some}
use render_studio_kit.Shared.Texts.{Text}
use render_studio_kit.Networking.Url.{Url, parse, encode}
use render_studio_kit.Downloads.Host.{Host, Verb, get, World, Step, ask, return, throw, on_disk}
use render_studio_kit.Downloads.FileUtils.{unzip, extract, listed, move_entries, move}
use render_studio_kit.Downloads.RestClient.{
  Parameters, http_request, http_impl, tcp_impl, shut_down, ssl_impl, respond, request_impl,
  client_get, save, download_into, client_download, is_redirect, is_clean,
}
use render_studio_kit.Downloads.Documented.{Documented, IsName, Each}
use render_studio_kit.Downloads.Steps.{
  Keeps, Ensures-Keeps, Keeps-Ensures, bind-Ensures, listed-Ensures, bind-Keeps, ask-Keeps,
  return-Keeps, throw-Keeps, listed-Keeps, if-Keeps, try_or-Keeps,
}
use render_studio_kit.Downloads.Keeping.{
  There, on_disk-Keeps, on_network-Keeps, ensure_directory-Keeps, with_temp-Keeps,
}

module _ ⦃h : Host⦄ (laws : Documented) (q : h.FsPath) where
  open h use {
    FsPath, Disk, join, filename, parent_path, exists, create_directories, remove_all, rename,
    entries, resolve, connect, handshake, exchange, Network, Endpoints, Stream, set_host_name,
    shutdown, close, uri_parse,
  }
  open laws use {Under}

  abbrev P : World → Type 0
  P = There laws q

  abbrev Stays : {A : Type 0} → Step A → Type 0
  Stays m = Keeps P m

  http_impl-Keeps :
      (url : Url) (stream : Stream) (verb : Verb) (body : Text) (parameters : Parameters)
      → Stays (http_impl url stream verb body parameters)
  unfolding http_impl
  http_impl-Keeps url stream verb body parameters =
      on_network-Keeps laws q (exchange stream (http_request url verb body parameters))

  tcp_impl-Keeps :
      (url : Url) (results : Endpoints) (verb : Verb) (body : Text) (parameters : Parameters)
      → Stays (tcp_impl url results verb body parameters)
  unfolding tcp_impl
  tcp_impl-Keeps url results verb body parameters =
      bind-Keeps P _ _ (on_network-Keeps laws q (connect results)) (λ stream.
        bind-Keeps P _ _ (http_impl-Keeps url stream verb body parameters) (λ response w p. p))

  shut_down-Keeps : (stream : Stream) → Stays (shut_down stream)
  unfolding shut_down
  shut_down-Keeps stream w p =
      if-Keeps P (is_clean ((shutdown stream w.network).0)) (return tt) throw (return-Keeps P tt)
        (throw-Keeps P Unit) (record w { network = (shutdown stream w.network).1 }) p

  ssl_impl-Keeps :
      (url : Url) (results : Endpoints) (verb : Verb) (body : Text) (parameters : Parameters)
      → Stays (ssl_impl url results verb body parameters)
  unfolding ssl_impl
  ssl_impl-Keeps url results verb body parameters =
      bind-Keeps P _ _
        (if-Keeps P (set_host_name url.host) (return tt) throw (return-Keeps P tt)
          (throw-Keeps P Unit))
        (λ named. bind-Keeps P _ _ (on_network-Keeps laws q (connect results)) (λ stream.
          bind-Keeps P _ _ (on_network-Keeps laws q (handshake url.host stream)) (λ secured.
            bind-Keeps P _ _ (http_impl-Keeps url secured verb body parameters) (λ response.
              bind-Keeps P _ _ (shut_down-Keeps secured) (λ ended. return-Keeps P response)))))

  respond-Keeps :
      (request : Text) (verb : Verb) (body : Text) (parameters : Parameters)
      → Stays (respond request verb body parameters)
  unfolding respond
  respond-Keeps request verb body parameters =
      bind-Keeps P _ _ (listed-Keeps P (parse uri_parse request)) (λ url.
        bind-Keeps P _ _ (on_network-Keeps laws q (resolve url.host url.port)) (λ results.
          if-Keeps P url.ssl _ _ (ssl_impl-Keeps url results verb body parameters)
            (tcp_impl-Keeps url results verb body parameters)))

  request_impl-Keeps :
      (fuel : ℕ) (request : Text) (verb : Verb) (body : Text) (parameters : Parameters)
      → Stays (request_impl fuel request verb body parameters)
  unfolding request_impl
  request_impl-Keeps zero request verb body parameters w p = p
  request_impl-Keeps (suc fuel) request verb body parameters w p =
      bind-Keeps P _ _ (respond-Keeps request verb body parameters)
        (λ response.
          if-Keeps P (is_redirect response.status) _ (return response.body)
            (request_impl-Keeps fuel response.location verb body parameters)
            (return-Keeps P response.body))
        w p

  pub client_get-Keeps :
      (fuel : ℕ) (parameters : Parameters) (request : Text)
      → Stays (client_get fuel parameters request)
  unfolding client_get
  client_get-Keeps fuel parameters request =
      try_or-Keeps P _ _ (request_impl-Keeps fuel (encode request) get [] parameters)

  save-Keeps : (path : FsPath) (s : Text) → Stays (save path s)
  unfolding save
  save-Keeps path s w p = laws.write_keeps path q s w.disk p

  rename-Keeps : (a b : FsPath) → ¬ Under q a → Stays (on_disk (rename a b))
  rename-Keeps a b apart = on_disk-Keeps laws q (rename a b) (λ d. laws.rename_keeps a b q d apart)

  below : (a b : FsPath) → Under a b → ¬ Under q b → ¬ Under q a
  below a b under apart u = apart (laws.under_trans q a b u under)

  download_into-Keeps :
      (fuel : ℕ) (parameters : Parameters) (request : Text) (location temp : FsPath)
      → IsName (filename location)
      → ¬ Under q temp
      → Stays (download_into fuel parameters request location temp)
  unfolding download_into
  download_into-Keeps fuel parameters request location temp name apart =
      let part = join temp (filename location) in
      bind-Keeps P (ask (exists location)) _ (ask-Keeps P (exists location)) (λ found.
        bind-Keeps P _ _
          (if-Keeps P found (return tt) (on_disk (create_directories (parent_path location)))
            (return-Keeps P tt)
            (on_disk-Keeps laws q (create_directories (parent_path location))
              (λ d. laws.create_keeps (parent_path location) q d)))
          (λ made. bind-Keeps P _ _ (client_get-Keeps fuel parameters request) (λ received.
            bind-Keeps P _ _ (save-Keeps part received) (λ saved. try_or-Keeps P tt _ (
              rename-Keeps part location
                (below part temp (laws.join_under temp (filename location) name) apart))))))

  pub client_download-Keeps :
      (fuel : ℕ) (parameters : Parameters) (request : Text) (location : FsPath)
      → IsName (filename location)
      → Stays (client_download fuel parameters request location)
  unfolding client_download
  client_download-Keeps fuel parameters request location name =
      with_temp-Keeps laws q fuel (download_into fuel parameters request location)
        (λ temp apart. download_into-Keeps fuel parameters request location temp name apart)

  pub extract-Keeps : (archive destination : FsPath) → Stays (extract archive destination)
  unfolding extract unzip
  extract-Keeps archive destination =
      bind-Keeps P _ _ (ensure_directory-Keeps laws q destination)
        (λ made w p. laws.extract_keeps archive destination q w.disk p)

  move_entries-Keeps :
      (ps : List FsPath) (source destination : FsPath)
      → Each (λ p. Under p source) ps
      → ¬ Under q source
      → Stays (move_entries ps destination)
  unfolding move_entries
  move_entries-Keeps [] source destination each apart = return-Keeps P tt
  move_entries-Keeps (p ∷ ps) source destination each apart =
      bind-Keeps P _ _
        (rename-Keeps p (join destination (filename p)) (below p source each.0 apart))
        (λ moved. move_entries-Keeps ps source destination each.1 apart)

  pub move-Keeps :
      (source destination : FsPath) → ¬ Under q source → Stays (move source destination)
  unfolding move
  move-Keeps source destination apart =
      bind-Keeps P _ _ (ensure_directory-Keeps laws q destination) (λ made.
        Ensures-Keeps P (λ a v. Unit {0}) _
          (bind-Ensures P (λ found v. entries source v.disk ≡ found) (λ a v. Unit {0})
            (ask (entries source)) _ (λ v p. (p, refl))
            (λ found v p e.
              bind-Ensures P (λ ps x. found ≡ some ps) (λ a x. Unit {0}) (listed found) _
                (listed-Ensures P found)
                (λ ps x r e'.
                  Keeps-Ensures P (move_entries ps destination)
                    (move_entries-Keeps ps source destination
                      (laws.entries_under source ps v.disk (e ∙ e')) apart)
                    x r)
                v p)))
