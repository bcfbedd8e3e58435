-- ===== src/Pages/Fallback.antt =====
-- The pages of responses.go that stand in where a file cannot be read, byte for byte.
use sokol_traefik_plugin.Prelude.{List, [], ◌∷◌, ◌++◌}
use sokol_traefik_plugin.Text.{Bytes, codes}

abbrev join_pieces : List Bytes → Bytes
join_pieces [] = []
join_pieces (piece ∷ pieces) = piece ++ join_pieces pieces

unfoldable pub fallback_page : Bytes
fallback_page = join_pieces (
    codes "<!doctype html>"
    ∷ (10 ∷ [])
    ∷ codes
        "<html lang=\"en\" data-sokol-system-page=\"edge-response\"><head><meta charset=\"utf-8\"><m"
    ∷ codes "eta name=\"viewport\" content=\"width=device-width\">"
    ∷ (10 ∷ [])
    ∷ codes "<title>Request unavailable</title></head><body><main><h1>Request unavailable</h1>"
    ∷ (10 ∷ [])
    ∷ codes "<p>The request could not be completed.</p><p>Request ID: {{SOKOL_REQUEST_ID}}</p></ma"
    ∷ codes "in></body></html>"
    ∷ [])

unfoldable pub fallback_challenge_page : Bytes
fallback_challenge_page = join_pieces (
    codes "<!doctype html>"
    ∷ (10 ∷ [])
    ∷ codes
        "<html lang=\"en\" data-sokol-system-page=\"challenge\"><head><meta charset=\"utf-8\"><meta "
    ∷ codes "name=\"viewport\" content=\"width=device-width\">"
    ∷ (10 ∷ [])
    ∷ codes "<meta name=\"robots\" content=\"noindex,nofollow\"><title>Sokol verification</title>"
    ∷ (10 ∷ [])
    ∷ codes "<style>body{margin:0;min-height:100vh;display:grid;place-items:center;background:#0b1"
    ∷ codes "220;color:#eef6f7;font-family:system-ui,sans-serif}main{width:min(36rem,calc(100% - 2"
    ∷ codes "rem));padding:2rem}button{padding:.7rem 1rem}#warning{color:#fde68a}</style></head>"
    ∷ (10 ∷ [])
    ∷ codes
        "<body><main id=\"challenge\" data-url=\"{{SOKOL_CHALLENGE_URL}}\" data-token=\"{{SOKOL_CHA"
    ∷ codes
        "LLENGE_TOKEN}}\" data-resource=\"{{SOKOL_CHALLENGE_RESOURCE_ID}}\" data-site=\"{{SOKOL_CH"
    ∷ codes
        "ALLENGE_SITE_ID}}\" data-path=\"{{SOKOL_PATH}}\" data-auto=\"{{SOKOL_CHALLENGE_AUTO_START"
    ∷ codes "}}\">"
    ∷ (10 ∷ [])
    ∷ codes "<h1>Verification required</h1><p>Sokol needs a brief proof-of-work check.</p>"
    ∷ (10 ∷ [])
    ∷ codes
        "<sokol-captcha id=\"widget\" name=\"sokol\" challenge-url=\"{{SOKOL_CHALLENGE_URL}}\" gate-"
    ∷ codes "submit=\"false\" auto=\"off\"></sokol-captcha>"
    ∷ (10 ∷ [])
    ∷ codes "<p id=\"status\" role=\"status\"></p>"
    ∷ (10 ∷ [])
    ∷ codes
        "<p id=\"warning\" hidden>If verification assets are blocked, allow sokol-static.my-k.cl"
    ∷ codes "oud and sokol.my-k.cloud, or disable the blocker for this site.</p>"
    ∷ (10 ∷ [])
    ∷ codes "<p>Request ID: {{SOKOL_REQUEST_ID}}</p></main>"
    ∷ (10 ∷ [])
    ∷ codes
        "<script nonce=\"{{SOKOL_CSP_NONCE}}\" data-sokol-site=\"{{SOKOL_CHALLENGE_SITE_ID}}\" src"
    ∷ codes "=\"https://sokol-static.my-k.cloud/v1/sokol.iife.js\" defer></script>"
    ∷ (10 ∷ [])
    ∷ codes
        "<script nonce=\"{{SOKOL_CSP_NONCE}}\">(()=>{const r=document.getElementById('challenge'"
    ∷ codes "),w=document.getElementById('widget'),s=document.getElementById('status'),n=document."
    ∷ codes "getElementById('warning');let q=false;const blocked=()=>{n.hidden=false};const fail=("
    ∷ codes ")=>{blocked();s.textContent='Verification did not complete. Please retry.';q=false};c"
    ∷ codes
        "onst payload=x=>x&&x.payload||r.querySelector('input[name=\"sokol\"]')?.value;const com"
    ∷ codes "plete=async x=>{if(q)return;q=true;s.textContent='Finishing verification"
    ∷ (226 ∷ 128 ∷ 166 ∷ [])
    ∷ codes "';try{const p=payload(x);if(!p)throw Error('payload');const u=new URL(r.dataset.url,l"
    ∷ codes "ocation.href),z=await fetch(u.pathname+'/verify',{method:'POST',credentials:'same-ori"
    ∷ codes "gin',headers:{'Content-Type':'application/json','Accept':'application/json'},body:JSO"
    ∷ codes "N.stringify({challenge_token:r.dataset.token,resource_id:r.dataset.resource,site_id:r"
    ∷ codes ".dataset.site,path:r.dataset.path,payload:p})}),j=await z.json();if(!z.ok||!j.verifie"
    ∷ codes "d)throw Error('rejected');const d=new URL(location.href);d.pathname=r.dataset.path;d."
    ∷ codes "search='';d.hash='';location.assign(d.href)}catch(e){fail()}};w.addEventListener('ver"
    ∷ codes "ified',e=>complete(e.detail));w.addEventListener('statechange',e=>{if(e.detail&&e.det"
    ∷ codes "ail.state==='verified')complete(e.detail)});const run=async()=>{s.textContent='Verify"
    ∷ codes "ing"
    ∷ (226 ∷ 128 ∷ 166 ∷ [])
    ∷ codes "';try{await complete(await w.verify({timeout:180000}))}catch(e){fail()}};const t=setT"
    ∷ codes "imeout(fail,8000);customElements.whenDefined('sokol-captcha').then(()=>{clearTimeout("
    ∷ codes "t);if(r.dataset.auto==='true')run();else s.textContent='Use the verification control "
    ∷ codes "when you are ready.'}).catch(fail);fetch('https://sokol.my-k.cloud/api/tools/identity"
    ∷ codes "',{mode:'cors',cache:'no-store',credentials:'include'}).catch(blocked)})()</script>"
    ∷ (10 ∷ [])
    ∷ codes "</body></html>"
    ∷ [])
