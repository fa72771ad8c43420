-- ===== src/ApiKey/Listing/Laws.antt =====
-- Who is given the list of the API keys.
use openapi_nestjs_auth_mong.Documents.{ApiKey}
use openapi_nestjs_auth_mong.Platform.{Platform}
use openapi_nestjs_auth_mong.Request.Headers.{Headers}
