-- ===== src/Notifications/Tests.antt =====
-- A new lead, with a mail server that is down.
use alma_lead_management_ser.Common.{◌≡◌, refl, Bool, true, none, [], ◌∷◌, map, codes, Text}
use alma_lead_management_ser.Notifications.{
  ChannelSettings, get_channels, cached_channels, notify_new_lead, dispatch, Attempt,
}

abbrev by_smtp : ChannelSettings
by_smtp = record {
  resend_api_key = [];
  smtp_host = codes "smtp.alma.com";
  smtp_port = 587;
  smtp_user = codes "u";
  smtp_password = codes "p";
  smtp_use_tls = true;
  email_from = codes "noreply@alma.com";
  attorney_email = codes "attorney@alma.com";
}

-- Nobody is left out though every call raises; without attorneys the address of the settings is used.
notify_new_lead-down :
    map {B = Text × Bool}
      (λ (a : Attempt). (a.message.to, a.raised))
      (notify_new_lead by_smtp none
        (λ n c m. true)
        (codes "j@x.org")
        (codes "Jane")
        (codes "Doe")
        (codes "cv.pdf")
        [])
    ≡ (codes "j@x.org", true) ∷ (codes "attorney@alma.com", true) ∷ []
unfolding notify_new_lead dispatch cached_channels get_channels
notify_new_lead-down = refl
