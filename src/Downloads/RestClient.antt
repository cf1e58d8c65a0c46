-- ===== src/Downloads/RestClient.antt =====
-- Sources/Networking/RestClient.cpp: HTTP requests, with redirects followed, and downloads to files.
-- GetImpl, PostImpl and PutImpl differ only in the verb and the body.
use render_studio_kit.Shared.{
  ℕ, zero, suc, Bool, [], Option, none, if◌then◌else◌, ite, ℕ_discrete, true, false,
}
use render_studio_kit.Shared.Texts.{Text, codes}
use render_studio_kit.Networking.Url.{Url, parse, encode}
use render_studio_kit.Downloads.Host.{
  Host, Verb, get, post, put, Request, Response, Shutdown, no_error, end_of_file, stream_truncated,
  other_error, Step, done, return, throw, exhausted, ask, on_disk, on_network, try_or, ◌>>=◌,
}
use render_studio_kit.Downloads.FileUtils.{listed, with_temp}

-- std::map<RestClient::Parameters, std::string>
pub record Parameters : Type 0 where
  pub content_type : Option Text
  pub authorization : Option Text

-- RestClient() = default
abbrev pub no_parameters : Parameters
no_parameters = record { content_type = none; authorization = none }

-- HttpImpl up to the writing of the request
unfoldable pub http_request : Url → Verb → Text → Parameters → Request
http_request url verb body parameters = record {
  verb = verb;
  target = url.target;
  host = url.host;
  content_type = parameters.content_type;
  authorization = parameters.authorization;
  body = body;
}

-- redirectCodes.count(response.result()) > 0
unfoldable pub is_redirect : ℕ → Bool
is_redirect status =
    ite (ℕ_discrete status 301) true
      (ite (ℕ_discrete status 302) true (ite (ℕ_discrete status 307) true false))

-- An end of the stream and a truncated stream are no errors of the shutdown.
unfoldable pub is_clean : Shutdown → Bool
is_clean no_error = true
is_clean end_of_file = true
is_clean stream_truncated = true
is_clean other_error = false

module _ ⦃h : Host⦄ where
  open h use {
    FsPath, join, filename, parent_path, exists, create_directories, rename, write, Endpoints,
    Stream, resolve, connect, set_host_name, handshake, exchange, shutdown, close, uri_parse,
  }

  -- HttpImpl
  unfoldable pub http_impl : Url → Stream → Verb → Text → Parameters → Step Response
  http_impl url stream verb body parameters =
      on_network (exchange stream (http_request url verb body parameters))

  unfoldable pub tcp_impl : Url → Endpoints → Verb → Text → Parameters → Step Response
  tcp_impl url results verb body parameters = do
    stream ← on_network (connect results)
    response ← http_impl url stream verb body parameters
    λ w. (done response, record w { network = close stream w.network })

  -- stream.shutdown(ec), and what is thrown for it
  unfoldable pub shut_down : Stream → Step Unit
  shut_down stream w =
      let r = shutdown stream w.network in
      let w' = record w { network = r.1 } in (if is_clean r.0 then return tt else throw) w'

  unfoldable pub ssl_impl : Url → Endpoints → Verb → Text → Parameters → Step Response
  ssl_impl url results verb body parameters = do
    named ← if set_host_name url.host then return tt else throw
    stream ← on_network (connect results)
    secured ← on_network (handshake url.host stream)
    response ← http_impl url secured verb body parameters
    ended ← shut_down secured
    return response

  -- One round of GetImpl, PostImpl or PutImpl: the response, before redirects are looked at
  unfoldable pub respond : Text → Verb → Text → Parameters → Step Response
  respond request verb body parameters = do
    url ← listed (parse uri_parse request)
    results ← on_network (resolve url.host url.port)
    if url.ssl
        then ssl_impl url results verb body parameters
        else tcp_impl url results verb body parameters

  -- GetImpl, PostImpl, PutImpl: the recursion on redirects is bounded by the fuel.
  unfoldable pub request_impl : ℕ → Text → Verb → Text → Parameters → Step Text
  request_impl zero request verb body parameters = exhausted
  request_impl (suc fuel) request verb body parameters = do
    response ← respond request verb body parameters
    if is_redirect response.status
        then request_impl fuel response.location verb body parameters
        else return response.body

  abbrev pub get_impl : ℕ → Text → Parameters → Step Text
  get_impl fuel request parameters = request_impl fuel request get [] parameters

  abbrev pub error_text : Text
  error_text = codes "[Error]"

  -- RestClient::Get, Post, Put
  unfoldable pub client_get : ℕ → Parameters → Text → Step Text
  client_get fuel parameters request = try_or error_text (get_impl fuel (encode request) parameters)

  unfoldable pub client_post : ℕ → Parameters → Text → Text → Step Text
  client_post fuel parameters request body =
      try_or error_text (request_impl fuel (encode request) post body parameters)

  unfoldable pub client_put : ℕ → Parameters → Text → Text → Step Text
  client_put fuel parameters request body =
      try_or error_text (request_impl fuel (encode request) put body parameters)

  -- std::ofstream out(path); out << data; out.close();
  unfoldable pub save : FsPath → Text → Step Unit
  save path data_text w = (done tt, record w { disk = write path data_text w.disk })

  -- The body of Download, in its temporary directory
  unfoldable pub download_into : ℕ → Parameters → Text → FsPath → FsPath → Step Unit
  download_into fuel parameters request location temp = do
    found ← ask (exists location)
    made ← if found then return tt else on_disk (create_directories (parent_path location))
    received ← client_get fuel parameters request
    let part = join temp (filename location)
    saved ← save part received
    try_or tt (on_disk (rename part location))

  -- RestClient::Download
  unfoldable pub client_download : ℕ → Parameters → Text → FsPath → Step Unit
  client_download fuel parameters request location =
      with_temp fuel (download_into fuel parameters request location)
